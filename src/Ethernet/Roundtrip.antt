-- ===== src/Ethernet/Roundtrip.antt =====
-- What libsponge/tcp_helpers/ethernet_header.cc and ethernet_frame.cc serialize they parse back.
use csed353_computer_network.Prelude.{
  ℕ, ◌/◌, ◌%◌, ◌^◌, ◌<◌, ◌≤◌, ◌≡◌, refl, sym, ap, ◌∙◌, List, [], ◌∷◌, ◌++◌, ltb, length, arith,
  append_assoc, append-nil, length-append, if_elim,
}
use csed353_computer_network.Parser.{
  NetParser, ParseResult, no_error, parse_u8, parse_u16, unparse_u8,
}
use csed353_computer_network.Parser
use csed353_computer_network.Parser.Reading.{read_u8, read_u16, unparse_u8_lem, unparse_u16_lem}
use csed353_computer_network.Checksum.Sum.{AllBytes}
use csed353_computer_network.Buffers.{from_string, list_of, concatenate}
use csed353_computer_network.Buffers.Views.{contiguous, concatenate-append}
use csed353_computer_network.Ethernet.{
  EthernetAddress, EthernetHeader, EthernetFrame, header_length, parse_address, unparse_address,
  parse_fields, parse_header, serialize_header, parse, serialize,
}

-- Six bytes.
abbrev pub IsAddress : EthernetAddress → Type 0
IsAddress bytes = (length bytes ≡ 6) × AllBytes bytes

address_lem :
    (bytes rest : List ℕ)
    → AllBytes bytes
    → parse_address (length bytes) (Parser.new (bytes ++ rest)) ≡ (bytes, Parser.new rest)
unfolding parse_address
address_lem [] rest h = refl
address_lem (byte ∷ bytes) rest h =
    let e : parse_u8 (Parser.new (byte ∷ (bytes ++ rest))) ≡ (byte, Parser.new (bytes ++ rest)) =
      ap (λ b. parse_u8 (Parser.new (b ∷ (bytes ++ rest)))) (omega (arith, h.0))
      ∙ read_u8 byte (bytes ++ rest) h.0 in
    rw (e, address_lem bytes rest h.1) refl

-- An address is read whatever follows it.
pub parse_address_lem :
    (address rest : List ℕ)
    → IsAddress address
    → parse_address 6 (Parser.new (address ++ rest)) ≡ (address, Parser.new rest)
parse_address_lem address rest h =
    ap (λ n. parse_address n (Parser.new (address ++ rest))) (sym h.0)
    ∙ address_lem address rest h.1

-- An address is written after what was there.
pub unparse_address_lem :
    (ret bytes : List ℕ) → AllBytes bytes → unparse_address ret bytes ≡ ret ++ bytes
unfolding unparse_address
unparse_address_lem ret [] h = sym (append-nil ret)
unparse_address_lem ret (byte ∷ bytes) h =
    let e : byte / 1 % 256 ≡ byte = omega (arith, h.0) in
    ap (λ s. unparse_address s bytes) (unparse_u8_lem ret byte ∙ ap (λ b. ret ++ (b ∷ [])) e)
    ∙ unparse_address_lem (ret ++ (byte ∷ [])) bytes h.1
    ∙ append_assoc ret (byte ∷ []) bytes

-- The fields fit their types.
pub record InRange (h : EthernetHeader) : Type 0 where
  pub dst : IsAddress h.dst
  pub src : IsAddress h.src
  pub type : h.type < 2 ^ 16

serialize_header_lem :
    (h : EthernetHeader) (rest : List ℕ)
    → InRange h
    → serialize_header h ++ rest
      ≡ h.dst ++ (h.src ++ ((h.type / 256 % 256) ∷ (h.type / 1 % 256) ∷ rest))
unfolding serialize_header
serialize_header_lem h rest r =
    let type = (h.type / 256 % 256) ∷ (h.type / 1 % 256) ∷ [] in
    let e = unparse_address_lem [] h.dst r.dst.1 in
    let e' = ap (λ s. unparse_address s h.src) e ∙ unparse_address_lem h.dst h.src r.src.1 in
    ap (λ s. s ++ rest)
      (ap (λ s. Parser.unparse_u16 s h.type) e' ∙ unparse_u16_lem (h.dst ++ h.src) h.type)
    ∙ append_assoc (h.dst ++ h.src) type rest
    ∙ append_assoc h.dst h.src (type ++ rest)

-- `parse_fields`, given what each of its reads returns.
reads_lem :
    (p1 p2 p3 : NetParser) {p4 : NetParser} {dst src : EthernetAddress} {type : ℕ}
    → parse_address 6 p1 ≡ (dst, p2)
    → parse_address 6 p2 ≡ (src, p3)
    → parse_u16 p3 ≡ (type, p4)
    → parse_fields p1 ≡ (p4.result, record { dst = dst; src = src; type = type }, p4)
unfolding parse_fields
reads_lem p1 p2 p3 e1 e2 e3 = rw (e1, e2, e3) refl

long_lem :
    (old : EthernetHeader) (p : NetParser)
    → header_length ≤ length p.buffer
    → parse_header old p ≡ parse_fields p
unfolding parse_header
long_lem old p long =
    if_elim (λ o. o ≡ parse_fields p) (ltb (length p.buffer) header_length) _ _
      (λ e. absurd (ground arith)) (λ _. refl)

-- The frame that arrives, its payload in one buffer.
abbrev pub arrived : EthernetFrame → EthernetFrame
arrived frame = record frame { payload = contiguous frame.payload }

bytes_lem :
    (frame : EthernetFrame)
    → concatenate (serialize frame) ≡ serialize_header frame.header ++ concatenate frame.payload
unfolding serialize concatenate
bytes_lem frame =
    (concatenate-append (list_of (from_string (serialize_header frame.header))) frame.payload).0

-- A frame whose addresses are six bytes each and whose type is below 2 ^ 16, once serialized, parses
-- without an error as the same frame, with its payload in one buffer, whatever the frame parsed into
-- held before.
pub parse-serialize_frame :
    (frame old : EthernetFrame)
    → InRange frame.header
    → parse old (concatenate (serialize frame)) ≡ (no_error, arrived frame)
unfolding parse
parse-serialize_frame frame old r =
    let h = frame.header in
    let payload = concatenate frame.payload in
    let type_bytes = (h.type / 256 % 256) ∷ (h.type / 1 % 256) ∷ payload in
    let n = length-append h.dst (h.src ++ type_bytes) in
    let n' = length-append h.src type_bytes in
    let e : parse_header old.header (Parser.new (concatenate (serialize frame)))
        ≡ (no_error, h, Parser.new payload) =
      ap (λ s. parse_header old.header (Parser.new s))
        (bytes_lem frame ∙ serialize_header_lem h payload r)
      ∙ long_lem old.header _ (omega (arith, n, n', r.dst.0, r.src.0))
      ∙ reads_lem _ _ _ (parse_address_lem h.dst _ r.dst) (parse_address_lem h.src _ r.src)
          (read_u16 h.type payload r.type) in
    rw e refl
