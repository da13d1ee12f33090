-- ===== src/Ipv4/Lax.antt =====
-- The parser of libsponge/tcp_helpers/ipv4_datagram.cc lets a header pass whose checksum is wrong.
use csed353_computer_network.Prelude.{
  ℕ, ◌≡◌, ◌≢◌, refl, ap, ◌∙◌, List, ◌++◌, length, arith, not, ◌==◌, if_elim,
}
use csed353_computer_network.Parser.{no_error, bad_checksum}
use csed353_computer_network.Parser
use csed353_computer_network.Checksum
use csed353_computer_network.Buffers.{from_string, list_of}
use csed353_computer_network.Ipv4.{Ipv4Header, InternetDatagram, parse_header, parse}
use csed353_computer_network.Ipv4.Header.{InRange, header_bytes, verdict, header_bytes-parse}
use csed353_computer_network.Ipv4.Roundtrip.{parse_lem}

-- A datagram whose fields are in range and agree with its payload, but whose checksum is wrong, is
-- parsed without an error, though the parser of its header says that the checksum is bad.
pub parse-bad_checksum :
    (h : Ipv4Header) (old : InternetDatagram) (payload : List ℕ)
    → InRange (length payload) h
    → Checksum.value (Checksum.add (Checksum.new 0) (header_bytes h)) ≢ 0
    → ((parse_header old.header (Parser.new (header_bytes h ++ payload))).0 ≡ bad_checksum)
      × (parse old (header_bytes h ++ payload)
          ≡ (no_error, record { header = h; payload = list_of (from_string payload) }))
parse-bad_checksum h old payload r wrong =
    let sum = Checksum.value (Checksum.add (Checksum.new 0) (header_bytes h)) in
    let refused : verdict (header_bytes h) ≡ bad_checksum =
      if_elim (λ o. o ≡ bad_checksum) (not (sum == 0)) _ _ (λ _. refl)
        (λ e. absurd (wrong (ground arith))) in
    (
      ap (λ parsed. parsed.0) (header_bytes-parse h old.header payload r) ∙ refused,
      parse_lem h old payload r,
    )
