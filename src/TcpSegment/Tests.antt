-- ===== src/TcpSegment/Tests.antt =====
-- A segment with two bytes of data and an option's worth of padding.
use csed353_computer_network.Prelude.{◌≡◌, true, some, [], ◌∷◌, arith}
use csed353_computer_network.Parser.{no_error}
use csed353_computer_network.TcpSegment.{TcpHeader, TcpSegment, default_header, empty_segment}
use csed353_computer_network.Buffers.{concatenate}
use csed353_computer_network.TcpSegment.Wire.{serialize, parse}
use csed353_computer_network.TcpSegment.Roundtrip.{buffers, stamped, parse-serialize_segment}

abbrev padded_header : TcpHeader
padded_header = record default_header { sport = 80; seqno = 70000; syn = true; doff = 6 }

abbrev two_bytes : TcpSegment
two_bytes = record { header = padded_header; payload = 7 ∷ 8 ∷ [] }

parse-serialize_segment_example :
    (serialize two_bytes 99 ≡ some (buffers two_bytes 99))
    × (parse empty_segment (concatenate (buffers two_bytes 99)) 99
        ≡ (no_error, record { header = stamped two_bytes 99; payload = 7 ∷ 8 ∷ [] }))
parse-serialize_segment_example =
    parse-serialize_segment two_bytes empty_segment 99 (omega arith) (omega arith) (omega arith)
      (omega arith)

-- A header that claims to have no bytes, with its checksum.
abbrev short_header : TcpHeader
short_header = record default_header { doff = 0; cksum = 65535 }
