-- ===== src/NetworkInterface/Run.antt =====
-- Whatever happens to a `NetworkInterface` of libsponge/network_interface.cc: sequences of its calls.
use csed353_computer_network.Prelude.{
  ℕ, ◌≤◌, length, ◌≡◌, ◌≢◌, refl, sym, ap, ◌∙◌, false, Option, none, some, List, [], ◌∷◌, ◌==◌,
  ◌||◌, ◌&&◌, ◌and_then◌, arith, lookup, erase, Distinct, lookup-assign_ne, lookup-erase_self,
  lookup-erase_ne, Distinct-assign, Distinct-erase_keys, Bool-cases, inl, inr, if_elim,
}
use csed353_computer_network.Parser.{
  ParseResult, no_error, bad_checksum, packet_too_short, wrong_ip_version, header_too_short,
  truncated_packet, unsupported, is_error,
}
use csed353_computer_network.Ipv4.{InternetDatagram}
use csed353_computer_network.Ipv4
use csed353_computer_network.Buffers.{str}
use csed353_computer_network.Buffers.Views.{to_buffer-short}
use csed353_computer_network.Ethernet.{
  EthernetAddress, EthernetFrame, ethernet_broadcast, type_ipv4, same_address,
}
use csed353_computer_network.Arp.{ArpMessage, default_message, opcode_request}
use csed353_computer_network.Arp
use csed353_computer_network.NetworkInterface.{
  NetworkInterface, CacheEntry, new, blank_datagram, send_datagram, recv_frame, tick, aged,
  keys_to_erase,
}
use csed353_computer_network.NetworkInterface.Queue.{buffers}
use csed353_computer_network.NetworkInterface.Receive.{
  replied, released, recv_frame-foreign, recv_frame-arp,
}
use csed353_computer_network.NetworkInterface.Expire.{kept, older_timer, Distinct-aged, lookup-tick}
use csed353_computer_network.NetworkInterface.Valid.{
  IsValid, Waits, Waits-more, Waits-others, Sendable-Waits, send_datagram-IsValid,
}

pub no_error_lem : (r : ParseResult) → is_error r ≡ false → r ≡ no_error
no_error_lem no_error h = refl
no_error_lem bad_checksum h = cc h
no_error_lem packet_too_short h = cc h
no_error_lem wrong_ip_version h = cc h
no_error_lem header_too_short h = cc h
no_error_lem truncated_packet h = cc h
no_error_lem unsupported h = cc h

released-IsValid : (n : NetworkInterface) (msg : ArpMessage) → IsValid n → IsValid (released n msg)
released-IsValid n msg v =
    let ip = msg.sender_ip_address in
    let learned : CacheEntry = record { address = msg.sender_ethernet_address; timer = 0 } in
    record {
      distinct = Distinct-assign ip learned n.ethernet_addr_cache v.distinct;
      apart = λ k there. elim (Bool-cases (ip == k)) [
        | inl e ↦
            let same : ip ≡ k = ground arith in
            absurd (
              there (
                ap (λ i. lookup i (erase ip n.arp_timer)) (sym same)
                ∙ lookup-erase_self ip n.arp_timer))
        | inr e ↦
            let ne : ip ≢ k = λ (same : ip ≡ k). ground arith in
            lookup-assign_ne ip k learned n.ethernet_addr_cache ne
            ∙ v.apart k (λ gone. there (lookup-erase_ne ip k n.arp_timer ne ∙ gone))
      ];
      waits = Waits-others n.arp_timer ip n.queueing_ip_datagrams v.waits;
    }

replied-IsValid : (n : NetworkInterface) (msg : ArpMessage) → IsValid n → IsValid (replied n msg)
replied-IsValid n msg v =
    if_elim IsValid ((msg.opcode == opcode_request) && (msg.target_ip_address == n.ip_address)) _ _
      (λ _. record { distinct = v.distinct; apart = v.apart; waits = v.waits }) (λ _. v)

-- What a call leaves is valid, and it does not throw.
abbrev pub Received :
    NetworkInterface → Option (Option InternetDatagram × NetworkInterface) → Type 0
Received n o =
    (dgram : Option InternetDatagram) × (n' : NetworkInterface) × (o ≡ some (dgram, n'))
    × IsValid n'

pub recv_frame-IsValid :
    (n : NetworkInterface) (frame : EthernetFrame)
    → IsValid n
    → length frame.payload ≤ 1
    → Received n (recv_frame n frame)
unfolding recv_frame
recv_frame-IsValid n frame v short =
    let whole = to_buffer-short frame.payload short in
    let as_ipv4 = Ipv4.parse blank_datagram (str whole.0) in
    let as_arp = Arp.parse default_message (str whole.0) in
    elim (Bool-cases (
      same_address frame.header.dst ethernet_broadcast
      || same_address frame.header.dst n.ethernet_address)) [
        | inr foreign ↦ (none, n, recv_frame-foreign n frame foreign, v)
        | inl ours ↦ elim (Bool-cases (frame.header.type == type_ipv4)) [
          | inl kind ↦ elim (Bool-cases (is_error as_ipv4.0)) [
            | inl bad ↦ (none, n, rw (ours, kind, whole.1, bad) refl, v)
            | inr fine ↦ (some as_ipv4.1, n, rw (ours, kind, whole.1, fine) refl, v)
          ]
          | inr kind ↦ elim (Bool-cases (is_error as_arp.0)) [
            | inl bad ↦ (none, n, rw (ours, kind, whole.1, bad) refl, v)
            | inr fine ↦ (
              none,
              replied (released n as_arp.1) as_arp.1,
              recv_frame-arp n frame whole.0 as_arp.1 ours
                  (λ (same : frame.header.type ≡ type_ipv4). ground arith) whole.1
                  (ap (λ r. (r, as_arp.1)) (no_error_lem as_arp.0 fine))
                  (Sendable-Waits n.arp_timer as_arp.1.sender_ip_address n.queueing_ip_datagrams
                    v.waits),
              replied-IsValid (released n as_arp.1) as_arp.1 (released-IsValid n as_arp.1 v),
            )
          ]
        ]
      ]

-- A timer that is set stays set.
older_timer-there : (ms : ℕ) (o : Option ℕ) → o ≢ none → older_timer ms o ≢ none
older_timer-there ms none there = there
older_timer-there ms (some timer) there = λ e. cc e

older_timer-none : (ms : ℕ) (o : Option ℕ) → older_timer ms o ≢ none → o ≢ none
older_timer-none ms none there = there
older_timer-none ms (some timer) there = λ e. cc e

pub tick-IsValid : (n : NetworkInterface) (ms : ℕ) → IsValid n → IsValid (tick n ms)
unfolding tick
tick-IsValid n ms v =
    let cache = aged ms n.ethernet_addr_cache in
    let look = λ (k : ℕ). lookup-tick n ms k v.distinct in
    record {
      distinct =
          Distinct-erase_keys (keys_to_erase cache) cache
            (Distinct-aged ms n.ethernet_addr_cache v.distinct);
      apart = λ k there.
          let asked : lookup k n.arp_timer ≢ none =
            older_timer-none ms (lookup k n.arp_timer) (λ gone. there ((look k).1 ∙ gone)) in
          (look k).0 ∙ ap (kept ms) (v.apart k asked);
      waits =
          Waits-more n.arp_timer _ n.queueing_ip_datagrams
            (λ k there gone.
              older_timer-there ms (lookup k n.arp_timer) there (sym (look k).1 ∙ gone))
            v.waits;
    }

-- A call of one of the interface's functions.
pub data Call : Type 0 where
  send : InternetDatagram → ℕ → Call
  receive : EthernetFrame → Call
  pass : ℕ → Call

abbrev pub after : Option (Option InternetDatagram × NetworkInterface) → Option NetworkInterface
after none = none
after (some received) = some received.1

abbrev pub call : NetworkInterface → Call → Option NetworkInterface
call n (send dgram next_hop_ip) = send_datagram n dgram next_hop_ip
call n (receive frame) = after (recv_frame n frame)
call n (pass ms) = some (tick n ms)

unfoldable pub calls : NetworkInterface → List Call → Option NetworkInterface
calls n [] = some n
calls n (c ∷ rest) = call n c and_then λ n'. calls n' rest

-- A datagram that is sent can be serialized, and the payload of a frame that is received is in one
-- buffer at most, as `EthernetFrame::parse` leaves it.
abbrev pub IsWellFormed : Call → Type 0
IsWellFormed (send dgram next_hop_ip) = Ipv4.serialize dgram ≡ some (buffers dgram)
IsWellFormed (receive frame) = length frame.payload ≤ 1
IsWellFormed (pass ms) = Unit

abbrev pub AllWellFormed : List Call → Type 0
AllWellFormed [] = Unit
AllWellFormed (c ∷ rest) = IsWellFormed c × AllWellFormed rest

pub call-IsValid :
    (n : NetworkInterface) (c : Call)
    → IsValid n
    → IsWellFormed c
    → (n' : NetworkInterface) × (call n c ≡ some n') × IsValid n'
call-IsValid n (send dgram next_hop_ip) v good = send_datagram-IsValid n dgram next_hop_ip v good
call-IsValid n (receive frame) v good =
    let r = recv_frame-IsValid n frame v good in (r.1, ap after r.2, r.3)
call-IsValid n (pass ms) v good = (tick n ms, refl, tick-IsValid n ms v)

calls_lem :
    (n : NetworkInterface) (cs : List Call)
    → IsValid n
    → AllWellFormed cs
    → (n' : NetworkInterface) × (calls n cs ≡ some n') × IsValid n'
unfolding calls
calls_lem n [] v good = (n, refl, v)
calls_lem n (c ∷ rest) v good =
    let first = call-IsValid n c v good.0 in
    let later = calls_lem first.0 rest first.2 good.1 in
    (later.0, ap (λ o. o and_then λ n'. calls n' rest) first.1 ∙ later.1, later.2)

-- Any calls, in any order, on a new interface, of `send_datagram` with datagrams that can be serialized,
-- of `recv_frame` with any frames whose payload is in one buffer at most, which is how
-- `EthernetFrame::parse` leaves it, and of `tick`, do not throw, and leave an interface in which no
-- address is cached twice, no address that was asked for is cached, and every datagram that waits can be
-- serialized and waits for an address that was asked for.
pub calls-IsValid :
    (ethernet_address : EthernetAddress) (ip_address : ℕ) (cs : List Call)
    → AllWellFormed cs
    → (n : NetworkInterface) × (calls (new ethernet_address ip_address) cs ≡ some n) × IsValid n
unfolding Distinct Waits lookup
calls-IsValid ethernet_address ip_address cs good =
    calls_lem (new ethernet_address ip_address) cs
      (record { distinct = tt; apart = λ k there. refl; waits = tt }) good
