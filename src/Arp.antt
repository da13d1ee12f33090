-- ===== src/Arp.antt =====
-- `ARPMessage` of libsponge/tcp_helpers/arp_message.hh and arp_message.cc. `none` stands for an
-- exception.
pub mod Roundtrip
pub mod Bounds
mod Tests
use csed353_computer_network.Prelude.{
  ℕ, Bool, true, false, not, Option, none, some, List, [], ◌∷◌, ltb, ◌==◌, ◌&&◌, ◌||◌,
  if◌then◌else◌, length,
}
use csed353_computer_network.Parser.{
  NetParser, ParseResult, no_error, packet_too_short, unsupported, parse_u8, parse_u16, parse_u32,
  unparse_u8, unparse_u16, unparse_u32,
}
use csed353_computer_network.Parser
use csed353_computer_network.Ethernet.{EthernetAddress, type_ipv4, parse_address, unparse_address}

abbrev pub message_length : ℕ
message_length = 28

abbrev pub type_ethernet : ℕ
type_ethernet = 1

abbrev pub opcode_request : ℕ
opcode_request = 1

abbrev pub opcode_reply : ℕ
opcode_reply = 2

pub record ArpMessage : Type 0 where
  pub hardware_type : ℕ
  pub protocol_type : ℕ
  pub hardware_address_size : ℕ
  pub protocol_address_size : ℕ
  pub opcode : ℕ
  pub sender_ethernet_address : EthernetAddress
  pub sender_ip_address : ℕ
  pub target_ethernet_address : EthernetAddress
  pub target_ip_address : ℕ

-- `EthernetAddress{}`.
abbrev pub no_address : EthernetAddress
no_address = 0 ∷ 0 ∷ 0 ∷ 0 ∷ 0 ∷ 0 ∷ []

-- The member initialisers of `ARPMessage`.
abbrev pub default_message : ArpMessage
default_message = record {
  hardware_type = type_ethernet;
  protocol_type = type_ipv4;
  hardware_address_size = 6;
  protocol_address_size = 4;
  opcode = 0;
  sender_ethernet_address = no_address;
  sender_ip_address = 0;
  target_ethernet_address = no_address;
  target_ip_address = 0;
}

unfoldable pub supported : ArpMessage → Bool
supported m =
    (m.hardware_type == type_ethernet)
    && (m.protocol_type == type_ipv4)
    && (m.hardware_address_size == 6)
    && (m.protocol_address_size == 4)
    && ((m.opcode == opcode_request) || (m.opcode == opcode_reply))

-- `parse` from the addresses on.
unfoldable pub parse_addresses : ArpMessage → NetParser → ParseResult × ArpMessage
parse_addresses m p =
    let (sender_ethernet_address, p1) = parse_address 6 p in
    let (sender_ip_address, p2) = parse_u32 p1 in
    let (target_ethernet_address, p3) = parse_address 6 p2 in
    let (target_ip_address, p4) = parse_u32 p3 in
    (
      p4.result,
      record m {
        sender_ethernet_address = sender_ethernet_address;
        sender_ip_address = sender_ip_address;
        target_ethernet_address = target_ethernet_address;
        target_ip_address = target_ip_address;
      },
    )

-- `parse` from its first read on.
unfoldable pub parse_fields : ArpMessage → NetParser → ParseResult × ArpMessage
parse_fields m p =
    let (hardware_type, p1) = parse_u16 p in
    let (protocol_type, p2) = parse_u16 p1 in
    let (hardware_address_size, p3) = parse_u8 p2 in
    let (protocol_address_size, p4) = parse_u8 p3 in
    let (opcode, p5) = parse_u16 p4 in
    let read = record m {
      hardware_type = hardware_type;
      protocol_type = protocol_type;
      hardware_address_size = hardware_address_size;
      protocol_address_size = protocol_address_size;
      opcode = opcode;
    } in
    if not (supported read) then (unsupported, read) else parse_addresses read p5

unfoldable pub parse : ArpMessage → List ℕ → ParseResult × ArpMessage
parse m buffer =
    if ltb (length buffer) message_length
    then (packet_too_short, m)
    else parse_fields m (Parser.new buffer)

-- The fields as `serialize` writes them.
unfoldable pub fields : ArpMessage → List ℕ
fields m =
    let ret = unparse_u16 (unparse_u16 [] m.hardware_type) m.protocol_type in
    let ret' = unparse_u8 (unparse_u8 ret m.hardware_address_size) m.protocol_address_size in
    let ret'' = unparse_address (unparse_u16 ret' m.opcode) m.sender_ethernet_address in
    let ret''' =
      unparse_address (unparse_u32 ret'' m.sender_ip_address) m.target_ethernet_address in
    unparse_u32 ret''' m.target_ip_address

unfoldable pub serialize : ArpMessage → Option (List ℕ)
serialize m = if not (supported m) then none else some (fields m)
