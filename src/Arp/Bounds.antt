-- ===== src/Arp/Bounds.antt =====
-- What libsponge/tcp_helpers/arp_message.cc reads fits the types of its fields, whatever the bytes.
use csed353_computer_network.Prelude.{
  ℕ, zero, suc, ◌+◌, ◌^◌, ◌<◌, ◌≡◌, refl, ap, List, ltb, not, if◌then◌else◌, length, arith, if_elim,
}
use csed353_computer_network.Parser.{
  NetParser, ParseResult, parse_int, parse_bytes, parse_u8, parse_u32, check_size, error, width,
  unsupported, packet_too_short,
}
use csed353_computer_network.Parser
use csed353_computer_network.Checksum.Sum.{AllBytes}
use csed353_computer_network.Ethernet.{parse_address}
use csed353_computer_network.Ethernet.Roundtrip.{IsAddress}
use csed353_computer_network.Arp.{
  ArpMessage, message_length, supported, parse_addresses, parse_fields, parse,
}

parse_bytes_lt :
    (len : ℕ) (buffer : List ℕ) (rounds i ret : ℕ)
    → 0 < width len
    → ret < width len
    → parse_bytes len buffer rounds i ret < width len
parse_bytes_lt len buffer zero i ret positive small = small
parse_bytes_lt len buffer (suc rounds) i ret positive small =
    parse_bytes_lt len buffer rounds (i + 1) _ positive (omega arith)

pub parse_int_lt : (len : ℕ) (p : NetParser) → 0 < width len → (parse_int len p).0 < width len
unfolding parse_int
parse_int_lt len p positive =
    let checked = check_size p len in
    if_elim (λ (o : ℕ × NetParser). o.0 < width len) (error checked) _ _ (λ _. positive)
      (λ _. parse_bytes_lt len checked.buffer len 0 0 positive positive)

address_bytes :
    (bytes : ℕ) (p : NetParser)
    → (length (parse_address bytes p).0 ≡ bytes) × AllBytes (parse_address bytes p).0
unfolding parse_address
address_bytes zero p = (refl, tt)
address_bytes (suc bytes) p =
    let rest = address_bytes bytes (parse_u8 p).1 in
    (ap suc rest.0, (parse_int_lt 1 p (omega arith), rest.1))

-- The sender of a message fits its types.
unfoldable pub SenderFits : ArpMessage → Type 0
SenderFits m = IsAddress m.sender_ethernet_address × (m.sender_ip_address < 2 ^ 32)

kind_lem :
    (read : ArpMessage) (p : NetParser)
    → SenderFits read
    → SenderFits (if not (supported read) then (unsupported, read) else parse_addresses read p).1
unfolding SenderFits parse_addresses
kind_lem read p fits =
    if_elim (λ (o : ParseResult × ArpMessage). SenderFits o.1) (not (supported read)) _
      (parse_addresses read p) (λ _. fits)
      (λ _. (address_bytes 6 p, parse_int_lt 4 (parse_address 6 p).1 (omega arith)))

pub parse-SenderFits :
    (old : ArpMessage) (buffer : List ℕ) → SenderFits old → SenderFits (parse old buffer).1
unfolding SenderFits parse parse_fields
parse-SenderFits old buffer fits =
    if_elim (λ (o : ParseResult × ArpMessage). SenderFits o.1) (ltb (length buffer) message_length)
      _ (parse_fields old (Parser.new buffer)) (λ _. fits) (λ _. kind_lem _ _ fits)
