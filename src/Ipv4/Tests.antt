-- ===== src/Ipv4/Tests.antt =====
-- A datagram of three bytes in two buffers, with an option's worth of padding.
use csed353_computer_network.Prelude.{ℕ, ◌≡◌, ◌++◌, some, List, [], ◌∷◌, arith}
use csed353_computer_network.Parser.{no_error, bad_checksum, unparse_int}
use csed353_computer_network.Parser
use csed353_computer_network.Checksum
use csed353_computer_network.Buffers.{from_string, list_of, concatenate, list_size}
use csed353_computer_network.Ipv4.{
  Ipv4Header, InternetDatagram, default_header, header_fields, serialize, parse_header, parse,
}
use csed353_computer_network.Ipv4.Header.{header_bytes, padding}
use csed353_computer_network.Ipv4.Roundtrip.{wire, arrived, parse-serialize_datagram}
use csed353_computer_network.Ipv4.Lax.{parse-bad_checksum}

abbrev three_bytes : List ℕ
three_bytes = 7 ∷ 8 ∷ 9 ∷ []

abbrev padded : Ipv4Header
padded = record default_header { hlen = 6; len = 27; src = 0x0a000001; dst = 0xc0a80005 }

abbrev datagram : InternetDatagram
datagram = record {
  header = padded;
  payload = from_string (7 ∷ 8 ∷ []) ∷ from_string (9 ∷ []) ∷ [];
}

abbrev blank : InternetDatagram
blank = record { header = default_header; payload = [] }

parse-serialize_datagram_example :
    (serialize datagram ≡ some (wire datagram))
    × ((parse_header blank.header (Parser.new (concatenate (wire datagram)))).0 ≡ no_error)
    × (parse blank (concatenate (wire datagram)) ≡ (no_error, arrived datagram))
unfolding list_size
parse-serialize_datagram_example = parse-serialize_datagram datagram blank (omega arith)

parse-bad_checksum_example :
    ((parse_header blank.header (Parser.new (header_bytes padded ++ three_bytes))).0 ≡ bad_checksum)
    × (parse blank (header_bytes padded ++ three_bytes)
        ≡ (no_error, record { header = padded; payload = list_of (from_string three_bytes) }))
unfolding Checksum.add Checksum.value header_fields unparse_int padding
parse-bad_checksum_example =
    parse-bad_checksum padded blank three_bytes (omega arith) (λ e. omega (arith, e))
