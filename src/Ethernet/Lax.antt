-- ===== src/Ethernet/Lax.antt =====
-- The parser of libsponge/tcp_helpers/ethernet_frame.cc lets a frame pass that is too short.
use csed353_computer_network.Prelude.{ℕ, ◌<◌, ◌≡◌, refl, List, ltb, length, arith, if_elim}
use csed353_computer_network.Parser.{no_error, packet_too_short}
use csed353_computer_network.Parser
use csed353_computer_network.Buffers.{from_string, list_of}
use csed353_computer_network.Ethernet.{
  EthernetHeader, EthernetFrame, header_length, parse_header, parse,
}

short_lem :
    (old : EthernetHeader) (buffer : List ℕ)
    → length buffer < header_length
    → parse_header old (Parser.new buffer) ≡ (packet_too_short, old, Parser.new buffer)
unfolding parse_header
short_lem old buffer short =
    if_elim (λ o. o ≡ (packet_too_short, old, Parser.new buffer))
      (ltb (length buffer) header_length) _ _ (λ _. refl) (λ e. absurd (ground arith))

-- A buffer of fewer than 14 bytes parses without an error, as a frame with the old header and the
-- whole buffer as its payload, though the parser of its header says that the packet is too short.
pub parse-short_frame :
    (old : EthernetFrame) (buffer : List ℕ)
    → length buffer < header_length
    → ((parse_header old.header (Parser.new buffer)).0 ≡ packet_too_short)
      × (parse old buffer ≡ (no_error, record old { payload = list_of (from_string buffer) }))
unfolding parse
parse-short_frame old buffer short = rw (short_lem old.header buffer short) (refl, refl)
