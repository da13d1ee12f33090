-- ===== src/TcpSegment/Header.antt =====
-- The parser and the serializer of libsponge/tcp_helpers/tcp_header.cc on the bytes of a header.
use csed353_computer_network.Prelude.{
  ℕ, ◌+◌, ◌-◌, ◌*◌, ◌/◌, ◌%◌, ◌^◌, ◌<◌, ◌≤◌, ◌≡◌, refl, ap, ◌∙◌, Bool, none, some, List, ◌++◌, ltb,
  replicate, arith, take_all, if_elim,
}
use csed353_computer_network.Parser.{
  NetParser, ParseResult, no_error, unparse_int, parse_u8, parse_u16, parse_u32,
}
use csed353_computer_network.Parser
use csed353_computer_network.Parser.Bits.{flag, bit, resize}
use csed353_computer_network.Parser.Reading.{read_u8, read_u16, read_u32, remove_prefix-zeros}
use csed353_computer_network.TcpSegment.{TcpHeader}
use csed353_computer_network.TcpSegment.Wire.{
  header_length, skip_options, parse_header, flag_byte, header_fields, serialize_header,
}

-- The fields fit their types, and the data offset its four bits.
pub record Fits (h : TcpHeader) : Type 0 where
  pub sport : h.sport < 2 ^ 16
  pub dport : h.dport < 2 ^ 16
  pub seqno : h.seqno < 2 ^ 32
  pub ackno : h.ackno < 2 ^ 32
  pub doff : h.doff < 16
  pub win : h.win < 2 ^ 16
  pub cksum : h.cksum < 2 ^ 16
  pub uptr : h.uptr < 2 ^ 16

-- The header can be serialized, too.
pub record InRange (h : TcpHeader) : Type 0 where
  pub fits : Fits h
  pub doff_least : 5 ≤ h.doff

flags_lem :
    (a b c d e f : Bool)
    → let byte = bit a 5 + bit b 4 + bit c 3 + bit d 2 + bit e 1 + bit f 0 in
      (flag byte 5 ≡ a)
      × (flag byte 4 ≡ b)
      × (flag byte 3 ≡ c)
      × (flag byte 2 ≡ d)
      × (flag byte 1 ≡ e)
      × (flag byte 0 ≡ f)
      × (byte < 2 ^ 8)
flags_lem a b c d e f = ground arith

-- `parse_header`, given what each of its reads returns.
reads_lem :
    (p1 p2 p3 p4 p5 p6 p7 p8 p9 : NetParser) {p10 : NetParser}
    {sport dport seqno ackno offset_byte fl_b win cksum uptr : ℕ}
    → parse_u16 p1 ≡ (sport, p2)
    → parse_u16 p2 ≡ (dport, p3)
    → parse_u32 p3 ≡ (seqno, p4)
    → parse_u32 p4 ≡ (ackno, p5)
    → parse_u8 p5 ≡ (offset_byte, p6)
    → parse_u8 p6 ≡ (fl_b, p7)
    → parse_u16 p7 ≡ (win, p8)
    → parse_u16 p8 ≡ (cksum, p9)
    → parse_u16 p9 ≡ (uptr, p10)
    → parse_header p1
      ≡ skip_options
          (record {
            sport = sport;
            dport = dport;
            seqno = seqno;
            ackno = ackno;
            doff = offset_byte / 2 ^ 4;
            urg = flag fl_b 5;
            ack = flag fl_b 4;
            psh = flag fl_b 3;
            rst = flag fl_b 2;
            syn = flag fl_b 1;
            fin = flag fl_b 0;
            win = win;
            cksum = cksum;
            uptr = uptr;
          })
          p10
unfolding parse_header
reads_lem p1 p2 p3 p4 p5 p6 p7 p8 p9 e1 e2 e3 e4 e5 e6 e7 e8 e9 =
    rw (e1, e2, e3, e4, e5, e6, e7, e8, e9) refl

pub header_fields-parse :
    (h : TcpHeader) (rest : List ℕ)
    → Fits h
    → parse_header (Parser.new (header_fields h ++ rest)) ≡ skip_options h (Parser.new rest)
unfolding header_fields unparse_int
header_fields-parse h rest r =
    let f = flags_lem h.urg h.ack h.psh h.rst h.syn h.fin in
    let doff : h.doff * 2 ^ 4 % 256 / 2 ^ 4 ≡ h.doff = omega (arith, r.doff) in
    reads_lem _ _ _ _ _ _ _ _ _ (read_u16 h.sport _ r.sport) (read_u16 h.dport _ r.dport)
      (read_u32 h.seqno _ r.seqno) (read_u32 h.ackno _ r.ackno)
      (read_u8 (h.doff * 2 ^ 4 % 256) _ (omega arith)) (read_u8 (flag_byte h) _ f.6)
      (read_u16 h.win _ r.win) (read_u16 h.cksum _ r.cksum) (read_u16 h.uptr rest r.uptr)
    ∙ rw (doff, f.0, f.1, f.2, f.3, f.4, f.5) refl

unfoldable pub padding : TcpHeader → List ℕ
padding h = replicate (4 * h.doff - header_length) 0

pub serialize_header_lem :
    (h : TcpHeader) → InRange h → serialize_header h ≡ some (header_fields h ++ padding h)
unfolding serialize_header header_fields unparse_int padding
serialize_header_lem h r =
    if_elim (λ o. o ≡ some (header_fields h ++ padding h)) (ltb h.doff 5) none
      (some (resize (4 * h.doff) (header_fields h))) (λ e. absurd (ground (arith, r.doff_least)))
      (λ e.
        ap (λ s. some (s ++ padding h))
          (take_all (4 * h.doff) (header_fields h) (omega (arith, r.doff_least))))

pub skip_lem :
    (h : TcpHeader) (rest : List ℕ)
    → InRange h
    → skip_options h (Parser.new (padding h ++ rest)) ≡ (no_error, h, Parser.new rest)
unfolding skip_options padding
skip_lem h rest r =
    let n = h.doff * 4 - header_length in
    let e : 4 * h.doff - header_length ≡ n = omega arith in
    if_elim (λ o. o ≡ (no_error, h, Parser.new rest)) (ltb h.doff 5) _ _
      (λ short. absurd (ground (arith, r.doff_least)))
      (λ _. rw (e, remove_prefix-zeros n rest) refl)
