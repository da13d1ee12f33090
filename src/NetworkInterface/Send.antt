-- ===== src/NetworkInterface/Send.antt =====
-- `NetworkInterface::send_datagram` of libsponge/network_interface.cc for a next hop that is not cached,
-- and the bytes of its request.
use csed353_computer_network.Prelude.{
  ℕ, ◌^◌, ◌<◌, ◌≡◌, refl, sym, ap, ◌∙◌, true, none, some, [], ◌∷◌, ◌++◌, if◌then◌else◌, arith,
  lookup, assign, append-nil, Bool-cases, inl, inr,
}
use csed353_computer_network.Parser.{no_error}
use csed353_computer_network.Ipv4.{InternetDatagram}
use csed353_computer_network.Buffers.{from_string, list_of}
use csed353_computer_network.Ethernet.{ethernet_broadcast, type_arp, EthernetAddress}
use csed353_computer_network.Ethernet.Roundtrip.{IsAddress}
use csed353_computer_network.Arp.{
  ArpMessage, default_message, supported, opcode_request, opcode_reply, no_address,
}
use csed353_computer_network.Arp
use csed353_computer_network.Arp.Roundtrip.{InRange, parse-serialize_message}
use csed353_computer_network.NetworkInterface.{
  NetworkInterface, push_frame, arp_request, arp_reply, must_ask, broadcast_request, send_by,
  send_datagram,
}
use csed353_computer_network.NetworkInterface.Queue.{with_queue}

-- The interface once it has broadcast a request.
abbrev pub requested : NetworkInterface → ℕ → NetworkInterface
requested n ip =
    push_frame (record n { arp_timer = assign ip 0 n.arp_timer }) ethernet_broadcast type_arp
      (list_of (from_string (Arp.fields (arp_request n ip))))

-- The interface once it has asked for an address, if it must.
abbrev pub asked : NetworkInterface → ℕ → NetworkInterface
asked n ip = if must_ask (lookup ip n.arp_timer) then requested n ip else n

broadcast_request_lem : (n : NetworkInterface) (ip : ℕ) → broadcast_request n ip ≡ some (asked n ip)
unfolding broadcast_request Arp.serialize supported
broadcast_request_lem n ip = elim (Bool-cases (must_ask (lookup ip n.arp_timer))) [
  | inl e ↦ rw e refl
  | inr e ↦ rw e refl
]

-- The interface once a datagram waits.
abbrev pub waiting : NetworkInterface → InternetDatagram → ℕ → NetworkInterface
waiting n dgram ip =
    with_queue (asked n ip) ((asked n ip).queueing_ip_datagrams ++ ((dgram, ip) ∷ []))

pub send_uncached :
    (n : NetworkInterface) (dgram : InternetDatagram) (ip : ℕ)
    → lookup ip n.ethernet_addr_cache ≡ none
    → send_datagram n dgram ip ≡ some (waiting n dgram ip)
unfolding send_datagram send_by
send_uncached n dgram ip missing = rw (missing, broadcast_request_lem n ip) refl

-- The addresses of an interface fit their types.
pub record HasAddresses (n : NetworkInterface) : Type 0 where
  pub ethernet : IsAddress n.ethernet_address
  pub ip : n.ip_address < 2 ^ 32

-- A message between two interfaces.
abbrev between : ℕ → EthernetAddress → ℕ → EthernetAddress → ℕ → ArpMessage
between opcode src src_ip dst dst_ip = record default_message {
  opcode = opcode;
  sender_ethernet_address = src;
  sender_ip_address = src_ip;
  target_ethernet_address = dst;
  target_ip_address = dst_ip;
}

between-parse :
    (opcode : ℕ) (src : EthernetAddress) (src_ip : ℕ) (dst : EthernetAddress) (dst_ip : ℕ)
    → let m = between opcode src src_ip dst dst_ip in
      opcode < 2 ^ 16
      → supported m ≡ true
      → IsAddress src
      → src_ip < 2 ^ 32
      → IsAddress dst
      → dst_ip < 2 ^ 32
      → Arp.parse default_message (Arp.fields m) ≡ (no_error, m)
between-parse opcode src src_ip dst dst_ip small good a h a' h' =
    let m = between opcode src src_ip dst dst_ip in
    let range : InRange m = record {
      hardware_type = omega arith;
      protocol_type = omega arith;
      hardware_address_size = omega arith;
      protocol_address_size = omega arith;
      opcode = small;
      sender_ethernet_address = a;
      sender_ip_address = h;
      target_ethernet_address = a';
      target_ip_address = h';
    } in
    ap (Arp.parse default_message) (sym (append-nil (Arp.fields m)))
    ∙ (parse-serialize_message m default_message [] range good).1

pub arp_request-parse :
    (n : NetworkInterface) (ip : ℕ)
    → HasAddresses n
    → ip < 2 ^ 32
    → Arp.parse default_message (Arp.fields (arp_request n ip)) ≡ (no_error, arp_request n ip)
unfolding supported
arp_request-parse n ip r small =
    between-parse opcode_request n.ethernet_address n.ip_address no_address ip (omega arith) refl
      r.ethernet r.ip (omega arith) small

pub arp_reply-parse :
    (n : NetworkInterface) (msg : ArpMessage)
    → HasAddresses n
    → IsAddress msg.sender_ethernet_address
    → msg.sender_ip_address < 2 ^ 32
    → Arp.parse default_message (Arp.fields (arp_reply n msg)) ≡ (no_error, arp_reply n msg)
unfolding supported
arp_reply-parse n msg r address small =
    between-parse opcode_reply n.ethernet_address n.ip_address msg.sender_ethernet_address
      msg.sender_ip_address (omega arith) refl r.ethernet r.ip address small
