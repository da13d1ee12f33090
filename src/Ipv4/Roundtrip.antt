-- ===== src/Ipv4/Roundtrip.antt =====
-- What libsponge/tcp_helpers/ipv4_datagram.cc serializes it parses back.
use csed353_computer_network.Prelude.{
  ℕ, ◌+◌, ◌-◌, ◌*◌, ◌/◌, ◌%◌, ◌^◌, ◌<◌, ◌≤◌, ◌≡◌, refl, sym, ap, ap₂, ◌∙◌, true, false, not, some,
  List, [], ◌∷◌, ◌++◌, ◌==◌, length, take, drop, arith, append-nil, if_elim, subst,
}
use csed353_computer_network.Parser.{
  NetParser, ParseResult, no_error, bad_checksum, unparse_int, parse_u8, parse_u16, parse_u32,
  remove_prefix,
}
use csed353_computer_network.Parser
use csed353_computer_network.Checksum
use csed353_computer_network.Checksum.Sum.{parity_after, words, words-zeros}
use csed353_computer_network.Checksum.Verify.{value-verifies}
use csed353_computer_network.Buffers.{BufferList, from_string, list_of, concatenate, list_size}
use csed353_computer_network.Buffers.Views.{
  append-append, contiguous, concatenate-cons, list_size-concatenate,
}
use csed353_computer_network.Ipv4.{
  Ipv4Header, InternetDatagram, header_length, parse_header, header_fields, payload_length, parse,
  serialize,
}
use csed353_computer_network.Ipv4.Header.{
  InRange, padding, header_bytes, verdict, serialize_header_lem, header_bytes-parse,
}

-- The header that goes out.
abbrev zeroed : Ipv4Header → Ipv4Header
zeroed h = record h { cksum = 0 }

abbrev pub checksum : Ipv4Header → ℕ
checksum h = Checksum.value (Checksum.add (Checksum.new 0) (header_bytes (zeroed h)))

abbrev pub stamped : Ipv4Header → Ipv4Header
stamped h = record h { cksum = checksum h }

-- What goes out, a buffer with the header before those of the payload.
abbrev pub wire : InternetDatagram → BufferList
wire dgram = from_string (header_bytes (stamped dgram.header)) ∷ dgram.payload

-- The datagram that arrives, its payload in one buffer.
abbrev pub arrived : InternetDatagram → InternetDatagram
arrived dgram = record { header = stamped dgram.header; payload = contiguous dgram.payload }

stamped-InRange : (n : ℕ) (h : Ipv4Header) → InRange n h → InRange n (stamped h)
unfolding Checksum.value
stamped-InRange n h r = omega (arith, r.fits, r)

payload_length_lem : (n : ℕ) (h : Ipv4Header) → InRange n h → payload_length h ≡ n
payload_length_lem n h r = omega (arith, r.total, r.fits)

pub serialize_lem :
    (dgram : InternetDatagram)
    → InRange (list_size dgram.payload) dgram.header
    → serialize dgram ≡ some (wire dgram)
unfolding serialize
serialize_lem dgram r =
    let n = list_size dgram.payload in
    if_elim (λ o. o ≡ some (wire dgram)) (not (n == payload_length dgram.header)) _ _
      (λ e. absurd (ground (arith, payload_length_lem n dgram.header r)))
      (λ _.
        rw
          (
            serialize_header_lem (zeroed dgram.header) r.version r.hlen_least,
            serialize_header_lem (stamped dgram.header) r.version r.hlen_least,
            append-append (list_of (from_string (header_bytes (stamped dgram.header))))
                dgram.payload,
          )
          refl)

-- The bytes before the checksum, and those after it.
front : Ipv4Header → List ℕ
front h = take 10 (header_fields h)

back : Ipv4Header → List ℕ
back h = drop 12 (header_fields h) ++ padding h

even_front : (h : Ipv4Header) → parity_after false (front h) ≡ false
unfolding front header_fields unparse_int
even_front h = refl

bytes_split :
    (h : Ipv4Header) (c : ℕ)
    → c < 2 ^ 16
    → header_bytes (record h { cksum = c }) ≡ front h ++ ((c / 256) ∷ (c % 256) ∷ back h)
unfolding front back header_fields unparse_int padding
bytes_split h c small =
    let hi : c / 256 % 256 ≡ c / 256 = omega arith in
    let lo : c / 1 % 256 ≡ c % 256 = omega arith in ap₂ (λ a b. front h ++ (a ∷ b ∷ back h)) hi lo

sum_bound : (h : Ipv4Header) → 5 ≤ h.hlen → words false (front h ++ (0 ∷ 0 ∷ back h)) ≤ 655350
unfolding front back header_fields unparse_int padding
sum_bound h least =
    let n = 2 * h.hlen - 10 in
    let e : 4 * h.hlen - header_length ≡ n + n = omega (arith, least) in
    let z : words false (padding h) ≡ 0 =
      ap (words false) (sym (append-nil (padding h))) ∙ rw e (words-zeros n false []) in
    omega (arith, z)

-- The checksum that is computed is one for the whole of the header.
bytes-check :
    (h : Ipv4Header)
    → 5 ≤ h.hlen
    → Checksum.value (Checksum.add (Checksum.new 0) (header_bytes (stamped h))) ≡ 0
unfolding Checksum.value
bytes-check h least =
    let field = λ (c : ℕ). front h ++ ((c / 256) ∷ (c % 256) ∷ back h) in
    let sum = λ (s : List ℕ). Checksum.value (Checksum.add (Checksum.new 0) s) in
    let e : checksum h ≡ sum (field 0) = ap sum (bytes_split h 0 (omega arith)) in
    ap sum (bytes_split h (checksum h) (omega arith) ∙ ap field e)
    ∙ value-verifies 0 (front h) (back h) (even_front h) (omega (arith, sum_bound h least))

-- The rest of the datagram is what its header says.
pub parse_lem :
    (h : Ipv4Header) (old : InternetDatagram) (payload : List ℕ)
    → InRange (length payload) h
    → parse old (header_bytes h ++ payload)
      ≡ (no_error, record { header = h; payload = list_of (from_string payload) })
unfolding parse
parse_lem h old payload r =
    let same : (length payload == length payload) ≡ true = ground arith in
    rw (header_bytes-parse h old.header payload r, payload_length_lem (length payload) h r, same)
      refl

-- A datagram whose fields are in range, with version 4, a header length of at least 5 and a total length
-- that is that of the header and the payload, in however many buffers, is serialized, and the bytes that
-- were serialized parse without an error in their header or after it, whatever the datagram parsed into
-- held before, as the same datagram with its checksum filled in and its payload in one buffer.
pub parse-serialize_datagram :
    (dgram old : InternetDatagram)
    → InRange (list_size dgram.payload) dgram.header
    → (serialize dgram ≡ some (wire dgram))
      × ((parse_header old.header (Parser.new (concatenate (wire dgram)))).0 ≡ no_error)
      × (parse old (concatenate (wire dgram)) ≡ (no_error, arrived dgram))
parse-serialize_datagram dgram old r =
    let h = stamped dgram.header in
    let payload = concatenate dgram.payload in
    let r' : InRange (length payload) h =
      subst (λ n. InRange n h) (list_size-concatenate dgram.payload)
        (stamped-InRange (list_size dgram.payload) dgram.header r) in
    let e = concatenate-cons (from_string (header_bytes h)) dgram.payload in
    let accepted : verdict (header_bytes h) ≡ no_error =
      rw (bytes-check dgram.header r.hlen_least) refl in
    (
      serialize_lem dgram r,
      ap (λ s. (parse_header old.header (Parser.new s)).0) e
          ∙ ap (λ parsed. parsed.0) (header_bytes-parse h old.header payload r')
          ∙ accepted,
      ap (parse old) e ∙ parse_lem h old payload r',
    )
