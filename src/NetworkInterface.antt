-- ===== src/NetworkInterface.antt =====
-- `NetworkInterface` of libsponge/network_interface.hh and network_interface.cc: datagrams out as
-- Ethernet frames, with the addresses that ARP tells. An `Address` is the number that its `ipv4_numeric`
-- returns, the only thing that the interface asks of it. A function that returns `none` throws.
pub mod Queue
pub mod Receive
pub mod Send
pub mod Resolve
pub mod Expire
pub mod Valid
pub mod Run
pub mod Requests
pub mod Silence
pub mod OneRequest
mod Tests
use csed353_computer_network.Prelude.{
  ℕ, zero, suc, ◌+◌, ◌*◌, Bool, true, false, not, ◌&&◌, ◌||◌, Option, none, some, List, [], ◌∷◌,
  ◌++◌, leb, ◌==◌, if◌then◌else◌, ◌and_then◌, length, get_elem?, remove_at, lookup, assign, erase,
  erase_keys, add64,
}
use csed353_computer_network.Parser.{ParseResult, is_error}
use csed353_computer_network.Ipv4.{InternetDatagram, default_header}
use csed353_computer_network.Ipv4
use csed353_computer_network.Buffers.{Buffer, BufferList, str, from_string, list_of, to_buffer}
use csed353_computer_network.Ethernet.{
  EthernetAddress, EthernetHeader, EthernetFrame, ethernet_broadcast, type_ipv4, type_arp,
  same_address,
}
use csed353_computer_network.Arp.{
  ArpMessage, opcode_request, opcode_reply, no_address, default_message,
}
use csed353_computer_network.Arp

abbrev pub arp_req_time : ℕ
arp_req_time = 5 * 1000

abbrev pub cache_valid_time : ℕ
cache_valid_time = 30 * 1000

-- An Ethernet address and the time since it was learned.
pub record CacheEntry : Type 0 where
  pub address : EthernetAddress
  pub timer : ℕ

pub record NetworkInterface : Type 0 where
  pub ethernet_address : EthernetAddress
  pub ip_address : ℕ
  pub frames_out : List EthernetFrame
  pub ethernet_addr_cache : List (ℕ × CacheEntry)
  pub queueing_ip_datagrams : List (InternetDatagram × ℕ)
  pub arp_timer : List (ℕ × ℕ)

abbrev pub new : EthernetAddress → ℕ → NetworkInterface
new ethernet_address ip_address = record {
  ethernet_address = ethernet_address;
  ip_address = ip_address;
  frames_out = [];
  ethernet_addr_cache = [];
  queueing_ip_datagrams = [];
  arp_timer = [];
}

-- `_frames_out.push(frame_to_send)`, with the parts of the frame.
abbrev pub push_frame : NetworkInterface → EthernetAddress → ℕ → BufferList → NetworkInterface
push_frame n dst type payload = record n {
  frames_out =
      n.frames_out
      ++ (record {
        header = record { dst = dst; src = n.ethernet_address; type = type };
        payload = payload;
      }
          ∷ []);
}

abbrev pub arp_request : NetworkInterface → ℕ → ArpMessage
arp_request n next_hop_ip = record default_message {
  opcode = opcode_request;
  sender_ethernet_address = n.ethernet_address;
  sender_ip_address = n.ip_address;
  target_ethernet_address = no_address;
  target_ip_address = next_hop_ip;
}

-- The address was not asked for, or not in the last five seconds.
abbrev pub must_ask : Option ℕ → Bool
must_ask none = true
must_ask (some timer) = leb arp_req_time timer

-- The inner branch of `send_datagram`.
unfoldable pub broadcast_request : NetworkInterface → ℕ → Option NetworkInterface
broadcast_request n next_hop_ip =
    if must_ask (lookup next_hop_ip n.arp_timer)
    then (Arp.serialize (arp_request n next_hop_ip) and_then λ payload. some (
        push_frame (record n { arp_timer = assign next_hop_ip 0 n.arp_timer }) ethernet_broadcast
          type_arp (list_of (from_string payload))))
    else some n

-- `send_datagram`, with what the cache holds for the next hop.
unfoldable pub send_by :
    Option CacheEntry → NetworkInterface → InternetDatagram → ℕ → Option NetworkInterface
send_by none n dgram next_hop_ip = broadcast_request n next_hop_ip and_then λ asked.
    some (record asked {
      queueing_ip_datagrams = asked.queueing_ip_datagrams ++ ((dgram, next_hop_ip) ∷ []);
    })
send_by (some cached) n dgram next_hop_ip =
    Ipv4.serialize dgram and_then λ payload. some (push_frame n cached.address type_ipv4 payload)

unfoldable pub send_datagram : NetworkInterface → InternetDatagram → ℕ → Option NetworkInterface
send_datagram n dgram next_hop_ip =
    send_by (lookup next_hop_ip n.ethernet_addr_cache) n dgram next_hop_ip

-- The loop of `recv_frame` over the queued datagrams, from the i-th one on. A round either passes an
-- entry or erases one.
unfoldable pub send_queued : ℕ → NetworkInterface → ℕ → ℕ → Option NetworkInterface
send_queued zero n sender_ip i = some n
send_queued (suc fuel) n sender_ip i = elim (get_elem? n.queueing_ip_datagrams i) [
  | none ↦ some n
  | some entry ↦ elim (entry.1 == sender_ip) [
    | true ↦ send_datagram n entry.0 entry.1 and_then λ sent.
        send_queued fuel
          (record sent { queueing_ip_datagrams = remove_at sent.queueing_ip_datagrams i }) sender_ip
          i
    | false ↦ send_queued fuel n sender_ip (suc i)
  ]
]

-- The mapping of the sender is cached and its timer erased.
abbrev pub learn : NetworkInterface → ArpMessage → NetworkInterface
learn n msg = record n {
  ethernet_addr_cache =
      assign msg.sender_ip_address (record { address = msg.sender_ethernet_address; timer = 0 })
        n.ethernet_addr_cache;
  arp_timer = erase msg.sender_ip_address n.arp_timer;
}

abbrev pub arp_reply : NetworkInterface → ArpMessage → ArpMessage
arp_reply n msg = record default_message {
  opcode = opcode_reply;
  sender_ethernet_address = n.ethernet_address;
  sender_ip_address = n.ip_address;
  target_ethernet_address = msg.sender_ethernet_address;
  target_ip_address = msg.sender_ip_address;
}

-- The answer to a request for the address of the interface.
unfoldable pub reply : NetworkInterface → ArpMessage → Option NetworkInterface
reply n msg =
    if (msg.opcode == opcode_request) && (msg.target_ip_address == n.ip_address)
    then (Arp.serialize (arp_reply n msg) and_then λ payload.
        some (push_frame n msg.sender_ethernet_address type_arp (list_of (from_string payload))))
    else some n

-- What `recv_frame` does with an ARP message.
unfoldable pub recv_arp : NetworkInterface → ArpMessage → Option NetworkInterface
recv_arp n msg =
    send_queued (length n.queueing_ip_datagrams) (learn n msg) msg.sender_ip_address 0
    and_then λ sent. reply sent msg

abbrev pub blank_datagram : InternetDatagram
blank_datagram = record { header = default_header; payload = [] }

-- What `recv_frame` does with the payload of a frame of type IPv4, the datagram that it returns, and
-- with that of any other frame.
abbrev recv_as_ipv4 :
    NetworkInterface → Buffer → Option (Option InternetDatagram × NetworkInterface)
recv_as_ipv4 n buffer =
    let parsed = Ipv4.parse blank_datagram (str buffer) in
    if is_error parsed.0 then some (none, n) else some (some parsed.1, n)

abbrev recv_as_arp : NetworkInterface → Buffer → Option (Option InternetDatagram × NetworkInterface)
recv_as_arp n buffer =
    let parsed = Arp.parse default_message (str buffer) in
    if is_error parsed.0
    then some (none, n)
    else (recv_arp n parsed.1 and_then λ received. some (none, received))

-- The datagram that `recv_frame` returns and the interface after it. The payload is turned into one
-- buffer, which throws if it has several.
unfoldable pub recv_frame :
    NetworkInterface → EthernetFrame → Option (Option InternetDatagram × NetworkInterface)
recv_frame n frame =
    if not (
      same_address frame.header.dst ethernet_broadcast
      || same_address frame.header.dst n.ethernet_address)
    then some (none, n)
    else (if frame.header.type == type_ipv4
        then (to_buffer frame.payload and_then λ buffer. recv_as_ipv4 n buffer)
        else (to_buffer frame.payload and_then λ buffer. recv_as_arp n buffer))

-- The first loop of `tick`: the timers go on, and the keys of the entries that are too old are
-- noted.
unfoldable pub aged : ℕ → List (ℕ × CacheEntry) → List (ℕ × CacheEntry)
aged ms [] = []
aged ms (entry ∷ rest) =
    (entry.0, record (entry.1) { timer = add64 entry.1.timer ms }) ∷ aged ms rest

unfoldable pub keys_to_erase : List (ℕ × CacheEntry) → List ℕ
keys_to_erase [] = []
keys_to_erase (entry ∷ rest) =
    let later = keys_to_erase rest in
    if leb cache_valid_time entry.1.timer then entry.0 ∷ later else later

-- The last loop of `tick`.
unfoldable pub aged_timers : ℕ → List (ℕ × ℕ) → List (ℕ × ℕ)
aged_timers ms [] = []
aged_timers ms (entry ∷ rest) = (entry.0, add64 entry.1 ms) ∷ aged_timers ms rest

unfoldable pub tick : NetworkInterface → ℕ → NetworkInterface
tick n ms_since_last_tick =
    let cache = aged ms_since_last_tick n.ethernet_addr_cache in
    record n {
      ethernet_addr_cache = erase_keys (keys_to_erase cache) cache;
      arp_timer = aged_timers ms_since_last_tick n.arp_timer;
    }
