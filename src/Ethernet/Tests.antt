-- ===== src/Ethernet/Tests.antt =====
-- A frame with two bytes of data, in a buffer each.
use csed353_computer_network.Prelude.{◌≡◌, [], ◌∷◌, arith}
use csed353_computer_network.Parser.{no_error}
use csed353_computer_network.Buffers.{from_string, concatenate}
use csed353_computer_network.Ethernet.{
  EthernetFrame, ethernet_broadcast, type_arp, serialize, parse,
}
use csed353_computer_network.Ethernet.Roundtrip.{arrived, parse-serialize_frame}

abbrev frame : EthernetFrame
frame = record {
  header = record { dst = ethernet_broadcast; src = 2 ∷ 0 ∷ 0 ∷ 0 ∷ 1 ∷ 7 ∷ []; type = type_arp };
  payload = from_string (5 ∷ []) ∷ from_string (6 ∷ []) ∷ [];
}

abbrev blank : EthernetFrame
blank = record { header = record { dst = []; src = []; type = 0 }; payload = [] }

parse-serialize_frame_example :
    parse blank (concatenate (serialize frame)) ≡ (no_error, arrived frame)
parse-serialize_frame_example = parse-serialize_frame frame blank (omega arith)
