-- ===== src/Ipv4/Header.antt =====
-- The parser and the serializer of libsponge/tcp_helpers/ipv4_header.cc on the bytes of a header.
use csed353_computer_network.Prelude.{
  ℕ, ◌+◌, ◌-◌, ◌*◌, ◌/◌, ◌%◌, ◌^◌, ◌<◌, ◌≤◌, ◌≡◌, refl, sym, ap, ◌∙◌, Bool, not, none, some, List,
  ◌++◌, ltb, ◌==◌, if◌then◌else◌, length, take, replicate, arith, take_all, take-append,
  append_assoc, length-append, length-replicate, if_elim,
}
use csed353_computer_network.Parser.{
  NetParser, ParseResult, no_error, bad_checksum, unparse_int, parse_u8, parse_u16, parse_u32,
  remove_prefix,
}
use csed353_computer_network.Parser
use csed353_computer_network.Parser.Bits.{flag, bit, resize}
use csed353_computer_network.Parser.Reading.{read_u8, read_u16, read_u32, remove_prefix-zeros}
use csed353_computer_network.Checksum
use csed353_computer_network.Ipv4.{
  Ipv4Header, header_length, first_byte, fo_val, check_header, check_fields, parse_fields,
  parse_header, header_fields, serialize_header,
}

-- The fields fit their types, and the version, the header length and the offset their bits.
pub record Fits (h : Ipv4Header) : Type 0 where
  pub ver : h.ver < 16
  pub hlen : h.hlen < 16
  pub tos : h.tos < 2 ^ 8
  pub len : h.len < 2 ^ 16
  pub id : h.id < 2 ^ 16
  pub offset : h.offset < 2 ^ 13
  pub ttl : h.ttl < 2 ^ 8
  pub proto : h.proto < 2 ^ 8
  pub cksum : h.cksum < 2 ^ 16
  pub src : h.src < 2 ^ 32
  pub dst : h.dst < 2 ^ 32

-- The header can be serialized, too, with a payload of `n` bytes.
pub record InRange (n : ℕ) (h : Ipv4Header) : Type 0 where
  pub fits : Fits h
  pub version : h.ver ≡ 4
  pub hlen_least : 5 ≤ h.hlen
  pub total : h.len ≡ 4 * h.hlen + n

fragment_lem :
    (df mf : Bool) (offset : ℕ)
    → offset < 2 ^ 13
    → let x = bit df 14 + bit mf 13 + offset % 2 ^ 13 in
      (flag x 14 ≡ df) × (flag x 13 ≡ mf) × (x % 2 ^ 13 ≡ offset) × (x < 2 ^ 16)
fragment_lem df mf offset h = ground arith

-- `parse_fields`, given what each of its reads returns.
reads_lem :
    (p1 p2 p3 p4 p5 p6 p7 p8 p9 p10 : NetParser) {p11 : NetParser}
    {byte tos len id fo ttl proto cksum src dst : ℕ}
    → parse_u8 p1 ≡ (byte, p2)
    → parse_u8 p2 ≡ (tos, p3)
    → parse_u16 p3 ≡ (len, p4)
    → parse_u16 p4 ≡ (id, p5)
    → parse_u16 p5 ≡ (fo, p6)
    → parse_u8 p6 ≡ (ttl, p7)
    → parse_u8 p7 ≡ (proto, p8)
    → parse_u16 p8 ≡ (cksum, p9)
    → parse_u32 p9 ≡ (src, p10)
    → parse_u32 p10 ≡ (dst, p11)
    → parse_fields p1
      ≡ check_fields p1.buffer
          (record {
            ver = byte / 2 ^ 4;
            hlen = byte % 2 ^ 4;
            tos = tos;
            len = len;
            id = id;
            df = flag fo 14;
            mf = flag fo 13;
            offset = fo % 2 ^ 13;
            ttl = ttl;
            proto = proto;
            cksum = cksum;
            src = src;
            dst = dst;
          })
          p11
unfolding parse_fields
reads_lem p1 p2 p3 p4 p5 p6 p7 p8 p9 p10 e1 e2 e3 e4 e5 e6 e7 e8 e9 e10 =
    rw (e1, e2, e3, e4, e5, e6, e7, e8, e9, e10) refl

long_lem :
    (old : Ipv4Header) (p : NetParser)
    → header_length ≤ length p.buffer
    → parse_header old p ≡ parse_fields p
unfolding parse_header
long_lem old p long =
    if_elim (λ o. o ≡ parse_fields p) (ltb (length p.buffer) header_length) _ _
      (λ e. absurd (ground arith)) (λ _. refl)

pub header_fields-parse :
    (h old : Ipv4Header) (rest : List ℕ)
    → Fits h
    → parse_header old (Parser.new (header_fields h ++ rest))
      ≡ check_fields (header_fields h ++ rest) h (Parser.new rest)
unfolding header_fields unparse_int
header_fields-parse h old rest r =
    let f = fragment_lem h.df h.mf h.offset r.offset in
    let ver : first_byte h / 2 ^ 4 ≡ h.ver = omega (arith, r.ver, r.hlen) in
    let hlen : first_byte h % 2 ^ 4 ≡ h.hlen = omega (arith, r.ver, r.hlen) in
    long_lem old _ (omega arith)
    ∙ reads_lem _ _ _ _ _ _ _ _ _ _ (read_u8 (first_byte h) _ (omega arith)) (read_u8 h.tos _ r.tos)
        (read_u16 h.len _ r.len) (read_u16 h.id _ r.id) (read_u16 (fo_val h) _ f.3)
        (read_u8 h.ttl _ r.ttl) (read_u8 h.proto _ r.proto) (read_u16 h.cksum _ r.cksum)
        (read_u32 h.src _ r.src) (read_u32 h.dst rest r.dst)
    ∙ rw (ver, hlen, f.0, f.1, f.2) refl

unfoldable pub padding : Ipv4Header → List ℕ
padding h = replicate (4 * h.hlen - header_length) 0

-- The bytes of a header.
abbrev pub header_bytes : Ipv4Header → List ℕ
header_bytes h = header_fields h ++ padding h

pub serialize_header_lem :
    (h : Ipv4Header) → h.ver ≡ 4 → 5 ≤ h.hlen → serialize_header h ≡ some (header_bytes h)
unfolding serialize_header header_fields unparse_int padding
serialize_header_lem h four least =
    if_elim (λ o. o ≡ some (header_bytes h)) (not (h.ver == 4)) _ _
      (λ e. absurd (ground (arith, four)))
      (λ _.
        if_elim (λ o. o ≡ some (header_bytes h)) (ltb (4 * h.hlen) header_length) none
          (some (resize (4 * h.hlen) (header_fields h))) (λ e. absurd (ground (arith, least)))
          (λ _.
            ap (λ s. some (s ++ padding h))
              (take_all (4 * h.hlen) (header_fields h) (omega (arith, least)))))

-- The verdict on a header that is only left to be checked.
abbrev pub verdict : List ℕ → ParseResult
verdict bytes =
    if not (Checksum.value (Checksum.add (Checksum.new 0) bytes) == 0)
    then bad_checksum
    else no_error

-- The end of the header parser, where nothing but the checksum can be wrong.
settle_lem :
    (original : List ℕ) (h : Ipv4Header) (p : NetParser) {rest : List ℕ}
    → 4 * h.hlen ≤ length original
    → h.ver ≡ 4
    → 5 ≤ h.hlen
    → length original ≡ h.len
    → remove_prefix p (h.hlen * 4 - header_length) ≡ Parser.new rest
    → check_fields original h p ≡ (verdict (take (4 * h.hlen) original), h, Parser.new rest)
unfolding check_fields check_header
settle_lem original h p long four least total skipped = rw skipped (ground (arith, four, total))

length-header_bytes : (h : Ipv4Header) → 5 ≤ h.hlen → length (header_bytes h) ≡ 4 * h.hlen
unfolding header_fields unparse_int padding
length-header_bytes h least = omega (arith, length-replicate {A = ℕ} (4 * h.hlen - header_length) 0)

skip_lem :
    (h : Ipv4Header) (rest : List ℕ)
    → remove_prefix (Parser.new (padding h ++ rest)) (h.hlen * 4 - header_length) ≡ Parser.new rest
unfolding padding
skip_lem h rest =
    let e : 4 * h.hlen - header_length ≡ h.hlen * 4 - header_length = omega arith in
    rw e (remove_prefix-zeros (h.hlen * 4 - header_length) rest)

-- A header with any checksum, followed by the payload.
pub header_bytes-parse :
    (h old : Ipv4Header) (payload : List ℕ)
    → InRange (length payload) h
    → parse_header old (Parser.new (header_bytes h ++ payload))
      ≡ (verdict (header_bytes h), h, Parser.new payload)
header_bytes-parse h old payload r =
    let len = length-header_bytes h r.hlen_least in
    let all = length-append (header_bytes h) payload in
    let split = append_assoc (header_fields h) (padding h) payload in
    ap (λ s. parse_header old (Parser.new s)) split
    ∙ header_fields-parse h old (padding h ++ payload) r.fits
    ∙ ap (λ s. check_fields s h (Parser.new (padding h ++ payload))) (sym split)
    ∙ settle_lem (header_bytes h ++ payload) h (Parser.new (padding h ++ payload))
        (omega (arith, all, len)) r.version r.hlen_least (omega (arith, all, len, r.total))
        (skip_lem h payload)
    ∙ ap (λ s. (verdict s, h, Parser.new payload))
        (take-append (4 * h.hlen) (header_bytes h) payload (sym len))
