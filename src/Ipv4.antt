-- ===== src/Ipv4.antt =====
-- libsponge/tcp_helpers/ipv4_header.hh, ipv4_header.cc, ipv4_datagram.hh and ipv4_datagram.cc: an
-- Internet datagram and its bytes. A payload is a `BufferList`. `none` stands for an exception.
pub mod Header
pub mod Roundtrip
pub mod Lax
mod Tests
use csed353_computer_network.Prelude.{
  ℕ, zero, suc, ◌+◌, ◌-◌, ◌*◌, ◌/◌, ◌%◌, ◌^◌, Bool, true, false, not, Option, none, some, List, [],
  ◌∷◌, ◌++◌, ltb, ◌==◌, if◌then◌else◌, length, take, replicate, add32, u16_mod,
}
use csed353_computer_network.Parser.{
  NetParser, ParseResult, no_error, packet_too_short, wrong_ip_version, header_too_short,
  truncated_packet, bad_checksum, parse_u8, parse_u16, parse_u32, unparse_u8, unparse_u16,
  unparse_u32, remove_prefix,
}
use csed353_computer_network.Parser
use csed353_computer_network.Parser.Bits.{flag, bit, resize}
use csed353_computer_network.Checksum
use csed353_computer_network.Buffers.{BufferList, from_string, list_of, append, list_size}

abbrev pub header_length : ℕ
header_length = 20

abbrev pub default_ttl : ℕ
default_ttl = 128

abbrev pub proto_tcp : ℕ
proto_tcp = 6

pub record Ipv4Header : Type 0 where
  pub ver : ℕ
  pub hlen : ℕ
  pub tos : ℕ
  pub len : ℕ
  pub id : ℕ
  pub df : Bool
  pub mf : Bool
  pub offset : ℕ
  pub ttl : ℕ
  pub proto : ℕ
  pub cksum : ℕ
  pub src : ℕ
  pub dst : ℕ

pub record InternetDatagram : Type 0 where
  pub header : Ipv4Header
  pub payload : BufferList

-- The member initialisers of `IPv4Header`.
abbrev pub default_header : Ipv4Header
default_header = record {
  ver = 4;
  hlen = 5;
  tos = 0;
  len = 0;
  id = 0;
  df = true;
  mf = false;
  offset = 0;
  ttl = default_ttl;
  proto = proto_tcp;
  cksum = 0;
  src = 0;
  dst = 0;
}

-- The end of `IPv4Header::parse`: the options are skipped and the checksum is checked, over the bytes
-- of the header in the buffer that was there at first.
unfoldable pub check_header : List ℕ → Ipv4Header → NetParser → ParseResult × Ipv4Header × NetParser
check_header original h p =
    let skipped = remove_prefix p (h.hlen * 4 - header_length) in
    let check = Checksum.add (Checksum.new 0) (take (4 * h.hlen) original) in
    if Parser.error skipped
    then (skipped.result, h, skipped)
    else (if not (Checksum.value check == 0)
        then (bad_checksum, h, skipped)
        else (no_error, h, skipped))

-- The tests of `IPv4Header::parse`, once the fields are read.
unfoldable pub check_fields : List ℕ → Ipv4Header → NetParser → ParseResult × Ipv4Header × NetParser
check_fields original h p =
    if ltb (length original) (4 * h.hlen)
    then (packet_too_short, h, p)
    else (if not (h.ver == 4)
        then (wrong_ip_version, h, p)
        else (if ltb h.hlen 5
            then (header_too_short, h, p)
            else (if not (length original == h.len)
                then (truncated_packet, h, p)
                else check_header original h p)))

-- `IPv4Header::parse` from its first read on.
unfoldable pub parse_fields : NetParser → ParseResult × Ipv4Header × NetParser
parse_fields p =
    let (first_byte, p1) = parse_u8 p in
    let (tos, p2) = parse_u8 p1 in
    let (len, p3) = parse_u16 p2 in
    let (id, p4) = parse_u16 p3 in
    let (fo_val, p5) = parse_u16 p4 in
    let (ttl, p6) = parse_u8 p5 in
    let (proto, p7) = parse_u8 p6 in
    let (cksum, p8) = parse_u16 p7 in
    let (src, p9) = parse_u32 p8 in
    let (dst, p10) = parse_u32 p9 in
    check_fields p.buffer
      (record {
        ver = first_byte / 2 ^ 4;
        hlen = first_byte % 2 ^ 4;
        tos = tos;
        len = len;
        id = id;
        df = flag fo_val 14;
        mf = flag fo_val 13;
        offset = fo_val % 2 ^ 13;
        ttl = ttl;
        proto = proto;
        cksum = cksum;
        src = src;
        dst = dst;
      })
      p10

unfoldable pub parse_header : Ipv4Header → NetParser → ParseResult × Ipv4Header × NetParser
parse_header h p =
    if ltb (length p.buffer) header_length then (packet_too_short, h, p) else parse_fields p

abbrev pub first_byte : Ipv4Header → ℕ
first_byte h = (h.ver * 2 ^ 4 + h.hlen % 2 ^ 4) % 256

abbrev pub fo_val : Ipv4Header → ℕ
fo_val h = bit h.df 14 + bit h.mf 13 + h.offset % 2 ^ 13

-- The fields as `IPv4Header::serialize` writes them.
unfoldable pub header_fields : Ipv4Header → List ℕ
header_fields h =
    let ret = unparse_u8 (unparse_u8 [] (first_byte h)) h.tos in
    let ret' = unparse_u16 (unparse_u16 (unparse_u16 ret h.len) h.id) (fo_val h) in
    let ret'' = unparse_u16 (unparse_u8 (unparse_u8 ret' h.ttl) h.proto) h.cksum in
    unparse_u32 (unparse_u32 ret'' h.src) h.dst

unfoldable pub serialize_header : Ipv4Header → Option (List ℕ)
serialize_header h =
    if not (h.ver == 4)
    then none
    else (if ltb (4 * h.hlen) header_length
        then none
        else some (resize (4 * h.hlen) (header_fields h)))

-- A `uint16_t`.
abbrev pub payload_length : Ipv4Header → ℕ
payload_length h = (h.len + u16_mod - 4 * h.hlen) % u16_mod

unfoldable pub pseudo_cksum : Ipv4Header → ℕ
pseudo_cksum h =
    let pcksum = h.src / 2 ^ 16 + h.src % 2 ^ 16 in
    let pcksum' = add32 pcksum (h.dst / 2 ^ 16 + h.dst % 2 ^ 16) in
    add32 (add32 pcksum' h.proto) (payload_length h)

-- `IPv4Datagram::parse`; the result of its header is not looked at.
unfoldable pub parse : InternetDatagram → List ℕ → ParseResult × InternetDatagram
parse dgram buffer =
    let (header_result, header, p) = parse_header dgram.header (Parser.new buffer) in
    (
      if not (length p.buffer == payload_length header) then packet_too_short else p.result,
      record { header = header; payload = list_of (from_string p.buffer) },
    )

-- The header that goes out and the payload behind it.
abbrev joined : Option (List ℕ) → BufferList → Option BufferList
joined none payload = none
joined (some header_out) payload = some (append (list_of (from_string header_out)) payload)

abbrev serialize_with : Option (List ℕ) → InternetDatagram → Option BufferList
serialize_with none dgram = none
serialize_with (some header_zero_checksum) dgram =
    let check = Checksum.add (Checksum.new 0) header_zero_checksum in
    joined (serialize_header (record (dgram.header) { cksum = Checksum.value check })) dgram.payload

-- `IPv4Datagram::serialize`.
unfoldable pub serialize : InternetDatagram → Option BufferList
serialize dgram =
    if not (list_size dgram.payload == payload_length dgram.header)
    then none
    else serialize_with (serialize_header (record (dgram.header) { cksum = 0 })) dgram
