-- ===== src/Ethernet.antt =====
-- libsponge/tcp_helpers/ethernet_header.hh, ethernet_header.cc, ethernet_frame.hh and
-- ethernet_frame.cc: an Ethernet frame and its bytes. An Ethernet address, an array of six bytes, is
-- the list of them, and a payload a `BufferList`.
pub mod Roundtrip
pub mod Lax
mod Tests
use csed353_computer_network.Prelude.{
  ℕ, zero, suc, Bool, true, false, List, [], ◌∷◌, ◌++◌, ltb, ◌==◌, ◌&&◌, if◌then◌else◌, length,
}
use csed353_computer_network.Parser.{
  NetParser, ParseResult, packet_too_short, parse_u8, parse_u16, unparse_u8, unparse_u16,
}
use csed353_computer_network.Parser
use csed353_computer_network.Buffers.{BufferList, from_string, list_of, append}

abbrev pub EthernetAddress : Type 0
EthernetAddress = List ℕ

abbrev pub ethernet_broadcast : EthernetAddress
ethernet_broadcast = 0xff ∷ 0xff ∷ 0xff ∷ 0xff ∷ 0xff ∷ 0xff ∷ []

abbrev pub header_length : ℕ
header_length = 14

abbrev pub type_ipv4 : ℕ
type_ipv4 = 0x800

abbrev pub type_arp : ℕ
type_arp = 0x806

pub record EthernetHeader : Type 0 where
  pub dst : EthernetAddress
  pub src : EthernetAddress
  pub type : ℕ

pub record EthernetFrame : Type 0 where
  pub header : EthernetHeader
  pub payload : BufferList

-- The `==` of two arrays.
unfoldable pub same_address : EthernetAddress → EthernetAddress → Bool
same_address [] [] = true
same_address [] (y ∷ ys) = false
same_address (x ∷ xs) [] = false
same_address (x ∷ xs) (y ∷ ys) = (x == y) && same_address xs ys

-- The loop that reads an address, with the bytes left.
unfoldable pub parse_address : ℕ → NetParser → EthernetAddress × NetParser
parse_address zero p = ([], p)
parse_address (suc bytes) p =
    let (byte, p1) = parse_u8 p in let (rest, p2) = parse_address bytes p1 in (byte ∷ rest, p2)

-- The loop that writes an address.
unfoldable pub unparse_address : List ℕ → EthernetAddress → List ℕ
unparse_address ret [] = ret
unparse_address ret (byte ∷ rest) = unparse_address (unparse_u8 ret byte) rest

-- `EthernetHeader::parse` from its first read on.
unfoldable pub parse_fields : NetParser → ParseResult × EthernetHeader × NetParser
parse_fields p =
    let (dst, p1) = parse_address 6 p in
    let (src, p2) = parse_address 6 p1 in
    let (type, p3) = parse_u16 p2 in (p3.result, record { dst = dst; src = src; type = type }, p3)

unfoldable pub parse_header : EthernetHeader → NetParser → ParseResult × EthernetHeader × NetParser
parse_header h p =
    if ltb (length p.buffer) header_length then (packet_too_short, h, p) else parse_fields p

unfoldable pub serialize_header : EthernetHeader → List ℕ
serialize_header h = unparse_u16 (unparse_address (unparse_address [] h.dst) h.src) h.type

-- `EthernetFrame::parse`; the result of its header is not looked at.
unfoldable pub parse : EthernetFrame → List ℕ → ParseResult × EthernetFrame
parse frame buffer =
    let (header_result, header, p) = parse_header frame.header (Parser.new buffer) in
    (p.result, record { header = header; payload = list_of (from_string p.buffer) })

-- `EthernetFrame::serialize`.
unfoldable pub serialize : EthernetFrame → BufferList
serialize frame = append (list_of (from_string (serialize_header frame.header))) frame.payload
