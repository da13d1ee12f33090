-- ===== src/TcpSegment/Roundtrip.antt =====
-- What libsponge/tcp_helpers/tcp_header.cc and tcp_segment.cc serialize they parse back.
use csed353_computer_network.Prelude.{
  ℕ, ◌+◌, ◌-◌, ◌*◌, ◌/◌, ◌%◌, ◌^◌, ◌<◌, ◌≤◌, ◌≡◌, refl, sym, ap, ap₂, ◌∙◌, false, some, List, [],
  ◌∷◌, ◌++◌, length, take, drop, arith, append_assoc, length-append, length-replicate,
}
use csed353_computer_network.Parser.{
  NetParser, ParseResult, no_error, unparse_int, parse_u8, parse_u16, parse_u32,
}
use csed353_computer_network.Parser
use csed353_computer_network.Checksum
use csed353_computer_network.Checksum.Sum.{
  AllBytes, parity_after, words, words-zeros, words-le, add-append,
}
use csed353_computer_network.Checksum.Verify.{value-verifies}
use csed353_computer_network.TcpSegment.{TcpHeader, TcpSegment}
use csed353_computer_network.Buffers.{BufferList, from_string, concatenate}
use csed353_computer_network.TcpSegment.Wire.{
  header_length, checksum_of, serialize, parse, parse_header, header_fields,
}
use csed353_computer_network.TcpSegment.Header.{
  header_fields-parse, padding, serialize_header_lem, skip_lem, InRange,
}

-- The header that goes out.
abbrev zeroed : TcpHeader → TcpHeader
zeroed h = record h { cksum = 0 }

abbrev pub checksum : TcpSegment → ℕ → ℕ
checksum seg pseudo =
    checksum_of pseudo (header_fields (zeroed seg.header) ++ padding (zeroed seg.header))
      seg.payload

abbrev pub stamped : TcpSegment → ℕ → TcpHeader
stamped seg pseudo = record (seg.header) { cksum = checksum seg pseudo }

abbrev pub wire : TcpSegment → ℕ → List ℕ
wire seg pseudo =
    (header_fields (stamped seg pseudo) ++ padding (stamped seg pseudo)) ++ seg.payload

-- What goes out, the header and the payload in a buffer each.
abbrev pub buffers : TcpSegment → ℕ → BufferList
buffers seg pseudo =
    from_string (header_fields (stamped seg pseudo) ++ padding (stamped seg pseudo))
    ∷ from_string seg.payload
    ∷ []

pub concatenate-buffers :
    (seg : TcpSegment) (pseudo : ℕ) → concatenate (buffers seg pseudo) ≡ wire seg pseudo
unfolding concatenate
concatenate-buffers seg pseudo = refl

pub length-wire :
    (seg : TcpSegment) (pseudo : ℕ)
    → InRange seg.header
    → length (wire seg pseudo) ≡ 4 * seg.header.doff + length seg.payload
unfolding header_fields unparse_int padding
length-wire seg pseudo r =
    let h = stamped seg pseudo in
    omega (
      arith,
      length-append (header_fields h ++ padding h) seg.payload,
      length-append (header_fields h) (padding h),
      length-replicate {A = ℕ} (4 * h.doff - header_length) 0,
      r.doff_least,
    )

zeroed-InRange : (h : TcpHeader) → InRange h → InRange (zeroed h)
zeroed-InRange h r = omega (arith, r.fits, r)

stamped-InRange :
    (seg : TcpSegment) (pseudo : ℕ) → InRange seg.header → InRange (stamped seg pseudo)
unfolding Checksum.value
stamped-InRange seg pseudo r = omega (arith, r.fits, r)

pub serialize_lem :
    (seg : TcpSegment) (pseudo : ℕ)
    → InRange seg.header
    → serialize seg pseudo ≡ some (buffers seg pseudo)
unfolding serialize
serialize_lem seg pseudo r =
    rw
      (
        serialize_header_lem (zeroed seg.header) (zeroed-InRange seg.header r),
        serialize_header_lem (stamped seg pseudo) (stamped-InRange seg pseudo r),
      )
      refl

-- The bytes before the checksum, and those after it.
front : TcpHeader → List ℕ
front h = take 16 (header_fields h)

back : TcpSegment → List ℕ
back seg = drop 18 (header_fields seg.header) ++ (padding seg.header ++ seg.payload)

even_front : (h : TcpHeader) → parity_after false (front h) ≡ false
unfolding front header_fields unparse_int
even_front h = refl

wire_split :
    (seg : TcpSegment) (c : ℕ)
    → c < 2 ^ 16
    → let h = record (seg.header) { cksum = c } in
      (header_fields h ++ padding h) ++ seg.payload
      ≡ front seg.header ++ ((c / 256) ∷ (c % 256) ∷ back seg)
unfolding front back header_fields unparse_int padding
wire_split seg c small =
    let hi : c / 256 % 256 ≡ c / 256 = omega arith in
    let lo : c / 1 % 256 ≡ c % 256 = omega arith in
    ap₂ (λ a b. front seg.header ++ (a ∷ b ∷ back seg)) hi lo

sum_bound :
    (seg : TcpSegment)
    → InRange seg.header
    → AllBytes seg.payload
    → length seg.payload ≤ 65535
    → words false (front seg.header ++ (0 ∷ 0 ∷ back seg)) ≤ 655350 + 65280 * 65535
unfolding front back header_fields unparse_int padding
sum_bound seg r bytes short =
    let n = 2 * seg.header.doff - 10 in
    let e : 4 * seg.header.doff - header_length ≡ n + n = omega (arith, r.doff_least) in
    let z : words false (padding seg.header ++ seg.payload) ≡ words false seg.payload =
      rw e (words-zeros n false seg.payload) in
    omega (arith, z, words-le false seg.payload bytes)

-- The checksum that is computed is one for the whole of the segment.
wire-checks :
    (seg : TcpSegment) (pseudo : ℕ)
    → InRange seg.header
    → AllBytes seg.payload
    → length seg.payload ≤ 65535
    → pseudo < 2 ^ 20
    → Checksum.value (Checksum.add (Checksum.new pseudo) (wire seg pseudo)) ≡ 0
wire-checks seg pseudo r bytes short small =
    let field = λ (c : ℕ). front seg.header ++ ((c / 256) ∷ (c % 256) ∷ back seg) in
    let c = checksum seg pseudo in
    let e : c ≡ Checksum.value (Checksum.add (Checksum.new pseudo) (field 0)) = ap Checksum.value (
      sym (
        add-append (Checksum.new pseudo)
          (header_fields (zeroed seg.header) ++ padding (zeroed seg.header)) seg.payload)
      ∙ ap (Checksum.add (Checksum.new pseudo)) (wire_split seg 0 (omega arith))) in
    let v =
      value-verifies pseudo (front seg.header) (back seg) (even_front seg.header)
        (omega (arith, sum_bound seg r bytes short)) in
    ap (λ s. Checksum.value (Checksum.add (Checksum.new pseudo) s))
      (wire_split seg c (stamped-InRange seg pseudo r).fits.cksum ∙ ap field e)
    ∙ v

-- A segment whose fields fit their types, with a data offset from 5 to 15 and a payload of at most 65535
-- bytes, is serialized, and the bytes that were serialized parse without an error, whatever the segment parsed into
-- held before, as the same segment with its checksum filled in, if the pseudo-checksum, below 2 ^ 20, is
-- the same.
pub parse-serialize_segment :
    (seg old : TcpSegment) (pseudo : ℕ)
    → InRange seg.header
    → AllBytes seg.payload
    → length seg.payload ≤ 65535
    → pseudo < 2 ^ 20
    → (serialize seg pseudo ≡ some (buffers seg pseudo))
      × (parse old (concatenate (buffers seg pseudo)) pseudo
          ≡ (no_error, record { header = stamped seg pseudo; payload = seg.payload }))
unfolding parse
parse-serialize_segment seg old pseudo r bytes short small =
    let h = stamped seg pseudo in
    let r' = stamped-InRange seg pseudo r in
    let read : parse_header (Parser.new (wire seg pseudo)) ≡ (no_error, h, Parser.new seg.payload) =
      ap (λ s. parse_header (Parser.new s)) (append_assoc (header_fields h) (padding h) seg.payload)
      ∙ header_fields-parse h (padding h ++ seg.payload) r'.fits
      ∙ skip_lem h seg.payload r' in
    (
      serialize_lem seg pseudo r,
      ap (λ s. parse old s pseudo) (concatenate-buffers seg pseudo)
          ∙ rw (wire-checks seg pseudo r bytes short small, read) refl,
    )
