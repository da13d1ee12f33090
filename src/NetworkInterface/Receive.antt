-- ===== src/NetworkInterface/Receive.antt =====
-- `NetworkInterface::recv_frame` of libsponge/network_interface.cc on each kind of frame.
use csed353_computer_network.Prelude.{
  ◌≡◌, ◌≢◌, refl, Bool, true, false, ◌&&◌, ◌||◌, none, some, [], ◌∷◌, ◌==◌, if◌then◌else◌, arith,
  length, ◌<◌, lookup-assign_self, Bool-cases, inl, inr,
}
use csed353_computer_network.Parser.{no_error}
use csed353_computer_network.Ipv4.{InternetDatagram}
use csed353_computer_network.Ipv4
use csed353_computer_network.Buffers.{Buffer, str, from_string, list_of, to_buffer}
use csed353_computer_network.Buffers.Views.{to_buffer-several}
use csed353_computer_network.Ethernet.{
  EthernetAddress, EthernetFrame, ethernet_broadcast, type_ipv4, type_arp, same_address,
}
use csed353_computer_network.Arp.{ArpMessage, default_message, supported, opcode_request}
use csed353_computer_network.Arp
use csed353_computer_network.NetworkInterface.{
  NetworkInterface, CacheEntry, push_frame, learn, arp_reply, reply, recv_arp, recv_frame,
  blank_datagram,
}
use csed353_computer_network.NetworkInterface.Queue.{
  frames_for, others, Sendable, with_queue, with_frames, send_queued-all,
}

-- The interface takes frames to `dst`.
abbrev pub Accepts : NetworkInterface → EthernetAddress → Type 0
Accepts n dst = (same_address dst ethernet_broadcast || same_address dst n.ethernet_address) ≡ true

pub same_address_refl : (address : EthernetAddress) → same_address address address ≡ true
unfolding same_address
same_address_refl [] = refl
same_address_refl (x ∷ xs) = ground (arith, same_address_refl xs)

or_true : (b : Bool) → (b || true) ≡ true
or_true true = refl
or_true false = refl

pub Accepts-broadcast : (n : NetworkInterface) → Accepts n ethernet_broadcast
Accepts-broadcast n = rw (same_address_refl ethernet_broadcast) refl

pub Accepts-own : (n : NetworkInterface) → Accepts n n.ethernet_address
Accepts-own n =
    rw (same_address_refl n.ethernet_address)
      (or_true (same_address n.ethernet_address ethernet_broadcast))

-- A frame for someone else changes nothing.
pub recv_frame-foreign :
    (n : NetworkInterface) (frame : EthernetFrame)
    → (same_address frame.header.dst ethernet_broadcast
        || same_address frame.header.dst n.ethernet_address)
      ≡ false
    → recv_frame n frame ≡ some (none, n)
unfolding recv_frame
recv_frame-foreign n frame foreign = rw foreign refl

-- The interface once it has answered a request for its address.
abbrev pub replied : NetworkInterface → ArpMessage → NetworkInterface
replied n msg =
    if (msg.opcode == opcode_request) && (msg.target_ip_address == n.ip_address)
    then push_frame n msg.sender_ethernet_address type_arp
        (list_of (from_string (Arp.fields (arp_reply n msg))))
    else n

reply_lem : (n : NetworkInterface) (msg : ArpMessage) → reply n msg ≡ some (replied n msg)
unfolding reply Arp.serialize supported
reply_lem n msg =
    let asked = (msg.opcode == opcode_request) && (msg.target_ip_address == n.ip_address) in
    let answer =
      push_frame n msg.sender_ethernet_address type_arp
        (list_of (from_string (Arp.fields (arp_reply n msg)))) in
    elim (Bool-cases asked) [ inl e ↦ rw e refl | inr e ↦ rw e refl ]

-- The interface once it has learned an address and has sent what waited for it.
abbrev pub released : NetworkInterface → ArpMessage → NetworkInterface
released n msg =
    with_queue
      (with_frames (learn n msg) (
        frames_for n.ethernet_address msg.sender_ethernet_address msg.sender_ip_address
          n.queueing_ip_datagrams))
      (others msg.sender_ip_address n.queueing_ip_datagrams)

recv_arp_lem :
    (n : NetworkInterface) (msg : ArpMessage)
    → Sendable msg.sender_ip_address n.queueing_ip_datagrams
    → recv_arp n msg ≡ some (replied (released n msg) msg)
unfolding recv_arp
recv_arp_lem n msg good =
    let learned : CacheEntry = record { address = msg.sender_ethernet_address; timer = 0 } in
    rw
      (send_queued-all (learn n msg) msg.sender_ip_address learned
        (lookup-assign_self msg.sender_ip_address learned n.ethernet_addr_cache) good)
      (reply_lem (released n msg) msg)

-- An ARP message for the interface, in one buffer: the address of its sender is cached, the datagrams that wait for
-- it are sent in their order, the others stay, and a request for the address of the interface is
-- answered after that. It does not throw, if the datagrams that wait for the sender can be serialized.
pub recv_frame-arp :
    (n : NetworkInterface) (frame : EthernetFrame) (buffer : Buffer) (msg : ArpMessage)
    → Accepts n frame.header.dst
    → frame.header.type ≢ type_ipv4
    → to_buffer frame.payload ≡ some buffer
    → Arp.parse default_message (str buffer) ≡ (no_error, msg)
    → Sendable msg.sender_ip_address n.queueing_ip_datagrams
    → recv_frame n frame ≡ some (none, replied (released n msg) msg)
unfolding recv_frame
recv_frame-arp n frame buffer msg ours kind whole parsed good =
    let e : (frame.header.type == type_ipv4) ≡ false = ground arith in
    rw (ours, e, whole, parsed, recv_arp_lem n msg good) refl

-- A frame for the interface with a datagram, in one buffer, that parses.
pub recv_frame-ipv4 :
    (n : NetworkInterface) (frame : EthernetFrame) (buffer : Buffer) (dgram : InternetDatagram)
    → Accepts n frame.header.dst
    → frame.header.type ≡ type_ipv4
    → to_buffer frame.payload ≡ some buffer
    → Ipv4.parse blank_datagram (str buffer) ≡ (no_error, dgram)
    → recv_frame n frame ≡ some (some dgram, n)
unfolding recv_frame
recv_frame-ipv4 n frame buffer dgram ours kind whole parsed =
    let e : (frame.header.type == type_ipv4) ≡ true = ground arith in
    rw (ours, e, whole, parsed) refl

-- A frame for the interface whose payload is in several buffers makes it throw.
pub recv_frame-several :
    (n : NetworkInterface) (frame : EthernetFrame)
    → Accepts n frame.header.dst
    → 1 < length frame.payload
    → recv_frame n frame ≡ none
unfolding recv_frame
recv_frame-several n frame ours several = elim (Bool-cases (frame.header.type == type_ipv4)) [
  | inl e ↦ rw (ours, e, to_buffer-several frame.payload several) refl
  | inr e ↦ rw (ours, e, to_buffer-several frame.payload several) refl
]
