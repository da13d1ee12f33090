-- ===== src/TcpSegment/Wire.antt =====
-- libsponge/tcp_helpers/tcp_header.cc and tcp_segment.cc: a TCP segment as bytes. `none`
-- stands for an exception.
use csed353_computer_network.Prelude.{
  ℕ, ◌+◌, ◌-◌, ◌*◌, ◌/◌, ◌%◌, ◌^◌, Bool, true, false, Option, none, some, List, [], ltb, ◌==◌, ◌&&◌,
  if◌then◌else◌,
}
use csed353_computer_network.Parser.{
  NetParser, ParseResult, no_error, header_too_short, bad_checksum, parse_u8, parse_u16, parse_u32,
  unparse_u8, unparse_u16, unparse_u32, remove_prefix, error, parse_int, unparse_int,
}
use csed353_computer_network.Parser
use csed353_computer_network.Parser.Bits.{flag, bit, resize}
use csed353_computer_network.Checksum
use csed353_computer_network.Buffers.{BufferList, from_string, list_of, append}
use csed353_computer_network.TcpSegment.{TcpHeader, TcpSegment}

abbrev pub header_length : ℕ
header_length = 20

-- The end of `TCPHeader::parse`, once the fields are read.
unfoldable pub skip_options : TcpHeader → NetParser → ParseResult × TcpHeader × NetParser
skip_options h p =
    if ltb h.doff 5
    then (header_too_short, h, p)
    else (let skipped = remove_prefix p (h.doff * 4 - header_length) in
        (skipped.result, h, skipped))

-- `TCPHeader::parse`, whose fields are all assigned.
unfoldable pub parse_header : NetParser → ParseResult × TcpHeader × NetParser
unfolding skip_options
parse_header p =
    let (sport, p1) = parse_u16 p in
    let (dport, p2) = parse_u16 p1 in
    let (seqno, p3) = parse_u32 p2 in
    let (ackno, p4) = parse_u32 p3 in
    let (offset_byte, p5) = parse_u8 p4 in
    let (fl_b, p6) = parse_u8 p5 in
    let (win, p7) = parse_u16 p6 in
    let (cksum, p8) = parse_u16 p7 in
    let (uptr, p9) = parse_u16 p8 in
    skip_options
      (record {
        sport = sport;
        dport = dport;
        seqno = seqno;
        ackno = ackno;
        doff = offset_byte / 2 ^ 4;
        urg = flag fl_b 5;
        ack = flag fl_b 4;
        psh = flag fl_b 3;
        rst = flag fl_b 2;
        syn = flag fl_b 1;
        fin = flag fl_b 0;
        win = win;
        cksum = cksum;
        uptr = uptr;
      })
      p9

abbrev pub flag_byte : TcpHeader → ℕ
flag_byte h = bit h.urg 5 + bit h.ack 4 + bit h.psh 3 + bit h.rst 2 + bit h.syn 1 + bit h.fin 0

-- The fields as `TCPHeader::serialize` writes them.
unfoldable pub header_fields : TcpHeader → List ℕ
header_fields h =
    let ret = unparse_u16 (unparse_u16 [] h.sport) h.dport in
    let ret' = unparse_u32 (unparse_u32 ret h.seqno) h.ackno in
    let ret'' = unparse_u8 (unparse_u8 ret' (h.doff * 2 ^ 4 % 256)) (flag_byte h) in
    unparse_u16 (unparse_u16 (unparse_u16 ret'' h.win) h.cksum) h.uptr

unfoldable pub serialize_header : TcpHeader → Option (List ℕ)
unfolding header_fields
serialize_header h = if ltb h.doff 5 then none else some (resize (4 * h.doff) (header_fields h))

-- `TCPSegment::parse`. The segment is assigned only if the checksum is right; the result of its
-- header is not looked at.
unfoldable pub parse : TcpSegment → List ℕ → ℕ → ParseResult × TcpSegment
parse seg buffer datagram_layer_checksum =
    let check = Checksum.add (Checksum.new datagram_layer_checksum) buffer in
    let parsed = parse_header (Parser.new buffer) in
    if Checksum.value check == 0
    then (parsed.2.result, record { header = parsed.1; payload = parsed.2.buffer })
    else (bad_checksum, seg)

-- The checksum that `TCPSegment::serialize` computes, given the header with a checksum of 0.
abbrev pub checksum_of : ℕ → List ℕ → List ℕ → ℕ
checksum_of datagram_layer_checksum header_out payload =
    Checksum.value
      (Checksum.add (Checksum.add (Checksum.new datagram_layer_checksum) header_out) payload)

-- The header that goes out and the payload behind it, in a buffer each.
abbrev joined : Option (List ℕ) → List ℕ → Option BufferList
joined none payload = none
joined (some header_out) payload =
    some (append (list_of (from_string header_out)) (list_of (from_string payload)))

abbrev serialize_with : Option (List ℕ) → TcpSegment → ℕ → Option BufferList
serialize_with none seg datagram_layer_checksum = none
serialize_with (some header_out) seg datagram_layer_checksum =
    joined
      (serialize_header (record (seg.header) {
        cksum = checksum_of datagram_layer_checksum header_out seg.payload;
      }))
      seg.payload

-- `TCPSegment::serialize`.
unfoldable pub serialize : TcpSegment → ℕ → Option BufferList
serialize seg datagram_layer_checksum =
    serialize_with (serialize_header (record (seg.header) { cksum = 0 })) seg
      datagram_layer_checksum

-- `TCPHeader::operator==`, which leaves out the ports and the checksum.
abbrev both : Bool → Bool → Bool
both true b = b
both false b = if b then false else true

unfoldable pub same_header : TcpHeader → TcpHeader → Bool
same_header h g =
    (h.seqno == g.seqno)
    && (h.ackno == g.ackno)
    && (h.doff == g.doff)
    && both h.urg g.urg
    && both h.ack g.ack
    && both h.psh g.psh
    && both h.rst g.rst
    && both h.syn g.syn
    && both h.fin g.fin
    && (h.win == g.win)
    && (h.uptr == g.uptr)
