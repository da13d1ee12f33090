-- ===== src/NetworkInterface/Resolve.antt =====
-- Two `NetworkInterface`s of libsponge/network_interface.cc on one network: the address of one is found
-- out by the other, and the datagram that waited for it arrives.
use csed353_computer_network.Prelude.{
  ℕ, ◌≡◌, ◌≢◌, refl, sym, ap, ap₂, ◌∙◌, true, none, some, List, [], ◌∷◌, ◌++◌, ◌==◌, arith, lookup,
  lookup-assign_self, lookup-erase_self, subst, Bool-cases, inl, inr,
}
use csed353_computer_network.Ipv4.{InternetDatagram}
use csed353_computer_network.Ipv4
use csed353_computer_network.Ipv4.Header.{InRange}
use csed353_computer_network.Ipv4.Roundtrip.{arrived, wire, parse-serialize_datagram}
use csed353_computer_network.Buffers.{from_string, list_of, list_size, concatenate, to_buffer}
use csed353_computer_network.Ethernet
use csed353_computer_network.Ethernet.{
  EthernetAddress, EthernetFrame, ethernet_broadcast, type_ipv4, type_arp,
}
use csed353_computer_network.Arp
use csed353_computer_network.NetworkInterface.{
  NetworkInterface, arp_request, arp_reply, blank_datagram, send_datagram, recv_frame,
}
use csed353_computer_network.NetworkInterface.Queue.{buffers, ipv4_frame, frames_for, Sendable}
use csed353_computer_network.NetworkInterface.Receive.{
  Accepts, Accepts-own, Accepts-broadcast, replied, released, recv_frame-arp, recv_frame-ipv4,
}
use csed353_computer_network.NetworkInterface.Send.{
  HasAddresses, waiting, send_uncached, arp_request-parse, arp_reply-parse,
}

pub serialize-buffers :
    (dgram : InternetDatagram)
    → InRange (list_size dgram.payload) dgram.header
    → (Ipv4.serialize dgram ≡ some (buffers dgram)) × (buffers dgram ≡ wire dgram)
serialize-buffers dgram r =
    let e = (parse-serialize_datagram dgram blank_datagram r).0 in rw e (refl, refl)

-- A datagram whose fields are in range and agree with its payload arrives: the frame that carries it,
-- once it was serialized and parsed, is received by an interface with the Ethernet address that the
-- frame is sent to, which returns the same datagram with its checksum filled in and its payload in one
-- buffer.
pub recv_frame-sent :
    (peer : NetworkInterface) (src : EthernetAddress) (dgram : InternetDatagram)
    → InRange (list_size dgram.payload) dgram.header
    → recv_frame peer (Ethernet.Roundtrip.arrived (ipv4_frame src peer.ethernet_address dgram))
      ≡ some (some (arrived dgram), peer)
unfolding to_buffer
recv_frame-sent peer src dgram r =
    recv_frame-ipv4 peer (Ethernet.Roundtrip.arrived (ipv4_frame src peer.ethernet_address dgram))
      (from_string (concatenate (buffers dgram))) (arrived dgram) (Accepts-own peer) refl refl
      (ap (λ b. Ipv4.parse blank_datagram (concatenate b)) (serialize-buffers dgram r).1
        ∙ (parse-serialize_datagram dgram blank_datagram r).2)

Sendable-append :
    (ip : ℕ) (queue : List (InternetDatagram × ℕ)) (dgram : InternetDatagram)
    → Sendable ip queue
    → Ipv4.serialize dgram ≡ some (buffers dgram)
    → Sendable ip (queue ++ ((dgram, ip) ∷ []))
unfolding Sendable
Sendable-append ip [] dgram h e = ((λ _. e), tt)
Sendable-append ip (entry ∷ queue) dgram h e = (h.0, Sendable-append ip queue dgram h.1 e)

frames_for-append :
    (src dst : EthernetAddress) (ip : ℕ) (queue : List (InternetDatagram × ℕ))
    (dgram : InternetDatagram)
    → frames_for src dst ip (queue ++ ((dgram, ip) ∷ []))
      ≡ frames_for src dst ip queue ++ (ipv4_frame src dst dgram ∷ [])
unfolding frames_for
frames_for-append src dst ip [] dgram = let same : (ip == ip) ≡ true = ground arith in rw same refl
frames_for-append src dst ip (entry ∷ queue) dgram = elim (Bool-cases (entry.1 == ip)) [
  | inl e ↦ rw e (
      ap (λ frames. ipv4_frame src dst entry.0 ∷ frames) (frames_for-append src dst ip queue dgram))
  | inr e ↦ rw e (frames_for-append src dst ip queue dgram)
]

-- The frame that asks for an address, and the one that answers.
abbrev pub request_frame : NetworkInterface → ℕ → EthernetFrame
request_frame n ip = record {
  header = record { dst = ethernet_broadcast; src = n.ethernet_address; type = type_arp };
  payload = list_of (from_string (Arp.fields (arp_request n ip)));
}

abbrev pub reply_frame : NetworkInterface → NetworkInterface → EthernetFrame
reply_frame n peer = record {
  header = record { dst = n.ethernet_address; src = peer.ethernet_address; type = type_arp };
  payload = list_of (from_string (Arp.fields (arp_reply peer (arp_request n peer.ip_address))));
}

arp-ne-ipv4 : type_arp ≢ type_ipv4
arp-ne-ipv4 = λ e. omega (arith, e)

-- The request is sent.
ask_lem :
    (n : NetworkInterface) (dgram : InternetDatagram) (ip : ℕ)
    → lookup ip n.arp_timer ≡ none
    → ((waiting n dgram ip).frames_out ≡ n.frames_out ++ (request_frame n ip ∷ []))
      × ((waiting n dgram ip).queueing_ip_datagrams ≡ n.queueing_ip_datagrams ++ ((dgram, ip) ∷ []))
      × ((waiting n dgram ip).ethernet_address ≡ n.ethernet_address)
ask_lem n dgram ip silent = rw silent (refl, refl, refl)

-- The request is answered.
answer_lem :
    (n peer : NetworkInterface)
    → HasAddresses n
    → HasAddresses peer
    → Sendable n.ip_address peer.queueing_ip_datagrams
    → let m = arp_request n peer.ip_address in
      (recv_frame peer (request_frame n peer.ip_address) ≡ some (none, replied (released peer m) m))
      × ((replied (released peer m) m).frames_out
          ≡ (released peer m).frames_out ++ (reply_frame n peer ∷ []))
answer_lem n peer r r' good =
    let m = arp_request n peer.ip_address in
    let same : (peer.ip_address == peer.ip_address) ≡ true = ground arith in
    (
      recv_frame-arp peer (request_frame n peer.ip_address)
          (from_string (Arp.fields (arp_request n peer.ip_address))) m (Accepts-broadcast peer)
          arp-ne-ipv4 (unfold to_buffer in refl) (arp_request-parse n peer.ip_address r r'.ip) good,
      rw same refl,
    )

Accepts-same :
    (n1 n : NetworkInterface)
    → n1.ethernet_address ≡ n.ethernet_address
    → Accepts n1 n.ethernet_address
Accepts-same n1 n e = subst (λ address. Accepts n1 address) e (Accepts-own n1)

-- What becomes of a datagram that an interface `n` is given for the address of an interface `peer` that
-- it neither knows nor has asked for: it waits, and `n` broadcasts a request; `peer` takes the request
-- and answers; `n` takes the answer, sends the datagram to `peer` after those that waited longer, keeps
-- the Ethernet address of `peer`, and no longer waits for it. Nothing throws. The addresses of both have
-- to fit their types, and the datagram and those that wait for one of the two to be serializable.
pub resolve :
    (n peer : NetworkInterface) (dgram : InternetDatagram)
    → HasAddresses n
    → HasAddresses peer
    → lookup peer.ip_address n.ethernet_addr_cache ≡ none
    → lookup peer.ip_address n.arp_timer ≡ none
    → Sendable peer.ip_address n.queueing_ip_datagrams
    → Sendable n.ip_address peer.queueing_ip_datagrams
    → Ipv4.serialize dgram ≡ some (buffers dgram)
    → (n1 peer1 n2 : NetworkInterface) × (send_datagram n dgram peer.ip_address ≡ some n1)
      × (n1.frames_out ≡ n.frames_out ++ (request_frame n peer.ip_address ∷ []))
      × (recv_frame peer (request_frame n peer.ip_address) ≡ some (none, peer1))
      × (peer1.frames_out
          ≡ (peer.frames_out
              ++ frames_for peer.ethernet_address n.ethernet_address n.ip_address
                  peer.queueing_ip_datagrams)
            ++ (reply_frame n peer ∷ []))
      × (recv_frame n1 (reply_frame n peer) ≡ some (none, n2))
      × (n2.frames_out
          ≡ n1.frames_out
            ++ (frames_for n.ethernet_address peer.ethernet_address peer.ip_address
                  n.queueing_ip_datagrams
                ++ (ipv4_frame n.ethernet_address peer.ethernet_address dgram ∷ [])))
      × (lookup peer.ip_address n2.ethernet_addr_cache
          ≡ some (record { address = peer.ethernet_address; timer = 0 }))
      × (lookup peer.ip_address n2.arp_timer ≡ none)
resolve n peer dgram r r' missing silent good good' sendable =
    let ip = peer.ip_address in
    let m = arp_request n ip in
    let n1 = waiting n dgram ip in
    let a = ask_lem n dgram ip silent in
    let answered = answer_lem n peer r r' good' in
    let m' = arp_reply peer m in
    let n2 = released n1 m' in
    let received : recv_frame n1 (reply_frame n peer) ≡ some (none, n2) =
      recv_frame-arp n1 (reply_frame n peer) (from_string (Arp.fields m')) m'
        (Accepts-same n1 n a.2) arp-ne-ipv4 (unfold to_buffer in refl)
        (arp_reply-parse peer m r' r.ethernet r.ip)
        (subst (Sendable ip) (sym a.1)
          (Sendable-append ip n.queueing_ip_datagrams dgram good sendable)) in
    (
      n1,
      replied (released peer m) m,
      n2,
      send_uncached n dgram ip missing,
      a.0,
      answered.0,
      answered.1,
      received,
      ap₂ (λ src queue. n1.frames_out ++ frames_for src peer.ethernet_address ip queue) a.2 a.1
          ∙ ap (λ frames. n1.frames_out ++ frames)
              (frames_for-append n.ethernet_address peer.ethernet_address ip n.queueing_ip_datagrams
                dgram),
      lookup-assign_self ip (record { address = peer.ethernet_address; timer = 0 })
          n1.ethernet_addr_cache,
      lookup-erase_self ip n1.arp_timer,
    )
