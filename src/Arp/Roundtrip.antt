-- ===== src/Arp/Roundtrip.antt =====
-- What libsponge/tcp_helpers/arp_message.cc serializes it parses back, and it parses nothing else.
use csed353_computer_network.Prelude.{
  ℕ, ◌/◌, ◌%◌, ◌^◌, ◌<◌, ◌≤◌, ◌≡◌, refl, ap, ◌∙◌, true, not, some, List, [], ◌∷◌, ◌++◌, ltb, length,
  arith, append_assoc, length-append, if_elim, if◌then◌else◌,
}
use csed353_computer_network.Parser.{
  NetParser, ParseResult, no_error, packet_too_short, unsupported, parse_u8, parse_u16, parse_u32,
  unparse_u8, unparse_u16, unparse_u32, unparse_int,
}
use csed353_computer_network.Parser
use csed353_computer_network.Parser.Reading.{read_u8, read_u16, read_u32, unparse_u32_lem}
use csed353_computer_network.Ethernet.{EthernetAddress, parse_address, unparse_address}
use csed353_computer_network.Ethernet.Roundtrip.{IsAddress, parse_address_lem, unparse_address_lem}
use csed353_computer_network.Arp.{
  ArpMessage, message_length, supported, parse_addresses, parse_fields, parse, fields, serialize,
}

-- The fields fit their types.
pub record InRange (m : ArpMessage) : Type 0 where
  pub hardware_type : m.hardware_type < 2 ^ 16
  pub protocol_type : m.protocol_type < 2 ^ 16
  pub hardware_address_size : m.hardware_address_size < 2 ^ 8
  pub protocol_address_size : m.protocol_address_size < 2 ^ 8
  pub opcode : m.opcode < 2 ^ 16
  pub sender_ethernet_address : IsAddress m.sender_ethernet_address
  pub sender_ip_address : m.sender_ip_address < 2 ^ 32
  pub target_ethernet_address : IsAddress m.target_ethernet_address
  pub target_ip_address : m.target_ip_address < 2 ^ 32

abbrev u32_bytes : ℕ → List ℕ
u32_bytes val =
    (val / 16777216 % 256) ∷ (val / 65536 % 256) ∷ (val / 256 % 256) ∷ (val / 1 % 256) ∷ []

abbrev u16_bytes : ℕ → List ℕ
u16_bytes val = (val / 256 % 256) ∷ (val / 1 % 256) ∷ []

-- The first eight bytes.
abbrev kind_bytes : ArpMessage → List ℕ
kind_bytes m =
    u16_bytes m.hardware_type
    ++ (u16_bytes m.protocol_type
        ++ ((m.hardware_address_size / 1 % 256)
            ∷ (m.protocol_address_size / 1 % 256)
            ∷ u16_bytes m.opcode))

-- An address of either kind, after what was written before.
pair_lem :
    (ret address rest : List ℕ) (ip : ℕ)
    → IsAddress address
    → unparse_u32 (unparse_address ret address) ip ++ rest
      ≡ ret ++ (address ++ (u32_bytes ip ++ rest))
pair_lem ret address rest ip h =
    ap (λ s. s ++ rest)
      (ap (λ s. unparse_u32 s ip) (unparse_address_lem ret address h.1)
        ∙ unparse_u32_lem (ret ++ address) ip)
    ∙ append_assoc (ret ++ address) (u32_bytes ip) rest
    ∙ append_assoc ret address (u32_bytes ip ++ rest)

fields_lem :
    (m : ArpMessage) (rest : List ℕ)
    → InRange m
    → fields m ++ rest
      ≡ kind_bytes m
        ++ (m.sender_ethernet_address
            ++ (u32_bytes m.sender_ip_address
                ++ (m.target_ethernet_address ++ (u32_bytes m.target_ip_address ++ rest))))
unfolding fields unparse_int
fields_lem m rest r =
    let sender =
      unparse_u32 (unparse_address (kind_bytes m) m.sender_ethernet_address) m.sender_ip_address in
    pair_lem sender m.target_ethernet_address rest m.target_ip_address r.target_ethernet_address
    ∙ pair_lem (kind_bytes m) m.sender_ethernet_address
        (m.target_ethernet_address ++ (u32_bytes m.target_ip_address ++ rest)) m.sender_ip_address
        r.sender_ethernet_address

-- `parse_addresses`, given what each of its reads returns.
address_reads_lem :
    (m : ArpMessage) (p1 p2 p3 p4 : NetParser) {p5 : NetParser} {sender target : EthernetAddress}
    {sender_ip target_ip : ℕ}
    → parse_address 6 p1 ≡ (sender, p2)
    → parse_u32 p2 ≡ (sender_ip, p3)
    → parse_address 6 p3 ≡ (target, p4)
    → parse_u32 p4 ≡ (target_ip, p5)
    → parse_addresses m p1 ≡ (
      p5.result,
      record m {
        sender_ethernet_address = sender;
        sender_ip_address = sender_ip;
        target_ethernet_address = target;
        target_ip_address = target_ip;
      },
    )
unfolding parse_addresses
address_reads_lem m p1 p2 p3 p4 e1 e2 e3 e4 = rw (e1, e2, e3, e4) refl

-- What comes of a message once its kind is read.
abbrev after_kind : ArpMessage → NetParser → ParseResult × ArpMessage
after_kind read p = if not (supported read) then (unsupported, read) else parse_addresses read p

-- `parse_fields`, given what each of its reads returns.
kind_reads_lem :
    (m : ArpMessage) (p1 p2 p3 p4 p5 : NetParser) {p6 : NetParser}
    {hardware_type protocol_type hardware_address_size protocol_address_size opcode : ℕ}
    → parse_u16 p1 ≡ (hardware_type, p2)
    → parse_u16 p2 ≡ (protocol_type, p3)
    → parse_u8 p3 ≡ (hardware_address_size, p4)
    → parse_u8 p4 ≡ (protocol_address_size, p5)
    → parse_u16 p5 ≡ (opcode, p6)
    → parse_fields m p1
      ≡ after_kind
          (record m {
            hardware_type = hardware_type;
            protocol_type = protocol_type;
            hardware_address_size = hardware_address_size;
            protocol_address_size = protocol_address_size;
            opcode = opcode;
          })
          p6
unfolding parse_fields
kind_reads_lem m p1 p2 p3 p4 p5 e1 e2 e3 e4 e5 = rw (e1, e2, e3, e4, e5) refl

long_lem :
    (old : ArpMessage) (buffer : List ℕ)
    → message_length ≤ length buffer
    → parse old buffer ≡ parse_fields old (Parser.new buffer)
unfolding parse
long_lem old buffer long =
    if_elim (λ o. o ≡ parse_fields old (Parser.new buffer)) (ltb (length buffer) message_length) _ _
      (λ e. absurd (ground arith)) (λ _. refl)

kind-parse :
    (m old : ArpMessage) (rest : List ℕ)
    → InRange m
    → parse_fields old (Parser.new (kind_bytes m ++ rest))
      ≡ after_kind
          (record m {
            sender_ethernet_address = old.sender_ethernet_address;
            sender_ip_address = old.sender_ip_address;
            target_ethernet_address = old.target_ethernet_address;
            target_ip_address = old.target_ip_address;
          })
          (Parser.new rest)
kind-parse m old rest r =
    kind_reads_lem old _ _ _ _ _ (read_u16 m.hardware_type _ r.hardware_type)
      (read_u16 m.protocol_type _ r.protocol_type)
      (read_u8 m.hardware_address_size _ r.hardware_address_size)
      (read_u8 m.protocol_address_size _ r.protocol_address_size) (read_u16 m.opcode rest r.opcode)

-- A message of a supported kind, whose fields fit their types, is serialized, and what was serialized
-- parses without an error as the same message, whatever bytes follow and whatever the message parsed
-- into held before.
pub parse-serialize_message :
    (m old : ArpMessage) (rest : List ℕ)
    → InRange m
    → supported m ≡ true
    → (serialize m ≡ some (fields m)) × (parse old (fields m ++ rest) ≡ (no_error, m))
unfolding serialize supported
parse-serialize_message m old rest r good =
    let split = fields_lem m rest r in
    let tail = m.target_ethernet_address ++ (u32_bytes m.target_ip_address ++ rest) in
    let n = length-append m.sender_ethernet_address (u32_bytes m.sender_ip_address ++ tail) in
    let n' = length-append m.target_ethernet_address (u32_bytes m.target_ip_address ++ rest) in
    (
      rw good refl,
      ap (parse old) split
          ∙ long_lem old _
              (omega (arith, n, n', r.sender_ethernet_address.0, r.target_ethernet_address.0))
          ∙ kind-parse m old _ r
          ∙ rw good (
              address_reads_lem _ _ _ _ _
                (parse_address_lem m.sender_ethernet_address _ r.sender_ethernet_address)
                (read_u32 m.sender_ip_address _ r.sender_ip_address)
                (parse_address_lem m.target_ethernet_address _ r.target_ethernet_address)
                (read_u32 m.target_ip_address rest r.target_ip_address)),
    )
