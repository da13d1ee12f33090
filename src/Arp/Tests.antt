-- ===== src/Arp/Tests.antt =====
-- A request, followed by two bytes of padding.
use csed353_computer_network.Prelude.{◌≡◌, refl, some, [], ◌∷◌, ◌++◌, arith}
use csed353_computer_network.Parser.{no_error}
use csed353_computer_network.Arp.{
  ArpMessage, opcode_request, default_message, supported, fields, parse, serialize,
}
use csed353_computer_network.Arp.Roundtrip.{parse-serialize_message}

abbrev request : ArpMessage
request = record default_message {
  opcode = opcode_request;
  sender_ethernet_address = 2 ∷ 0 ∷ 0 ∷ 0 ∷ 0 ∷ 1 ∷ [];
  sender_ip_address = 0x0a000001;
  target_ip_address = 0x0a000002;
}

parse-serialize_message_example :
    (serialize request ≡ some (fields request))
    × (parse default_message (fields request ++ (0 ∷ 0 ∷ [])) ≡ (no_error, request))
unfolding supported
parse-serialize_message_example =
    parse-serialize_message request default_message (0 ∷ 0 ∷ []) (omega arith) refl
