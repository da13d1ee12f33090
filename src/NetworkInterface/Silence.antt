-- ===== src/NetworkInterface/Silence.antt =====
-- Single calls of `NetworkInterface` of libsponge/network_interface.cc while there is no reason to ask for
-- an address.
use csed353_computer_network.Prelude.{
  ℕ, ◌+◌, ◌<◌, ◌≤◌, length, ◌≡◌, ◌≢◌, refl, sym, ap, ◌∙◌, false, ◌&&◌, ◌||◌, some, ◌==◌, leb, arith,
  lookup, assign, lookup-assign_self, lookup-assign_ne, lookup-erase_ne, add64, Bool-cases, inl,
  inr, if_elim,
}
use csed353_computer_network.Parser.{is_error}
use csed353_computer_network.Ipv4.{InternetDatagram}
use csed353_computer_network.Ipv4
use csed353_computer_network.Buffers.{str, from_string, list_of, concatenate}
use csed353_computer_network.Buffers.Views.{to_buffer-short}
use csed353_computer_network.Ethernet.{
  EthernetFrame, type_arp, type_ipv4, ethernet_broadcast, same_address,
}
use csed353_computer_network.Arp.{ArpMessage, default_message, opcode_request}
use csed353_computer_network.Arp
use csed353_computer_network.Arp.Bounds.{SenderFits, parse-SenderFits}
use csed353_computer_network.NetworkInterface.{
  NetworkInterface, CacheEntry, cache_valid_time, arp_reply, push_frame, recv_frame, tick,
  blank_datagram,
}
use csed353_computer_network.NetworkInterface.Queue.{frames_for}
use csed353_computer_network.NetworkInterface.Receive.{
  replied, released, recv_frame-foreign, recv_frame-arp,
}
use csed353_computer_network.NetworkInterface.Send.{HasAddresses, arp_reply-parse}
use csed353_computer_network.NetworkInterface.Expire.{kept, older_timer, lookup-tick}
use csed353_computer_network.NetworkInterface.Valid.{IsValid, Sendable-Waits}
use csed353_computer_network.NetworkInterface.Run.{receive, call, after, no_error_lem}
use csed353_computer_network.NetworkInterface.Requests.{
  asks, requests-append, requests-push, frames_for-ask, Quiet, Silent,
}

replied-Silent :
    (ip r : ℕ) (n : NetworkInterface) (msg : ArpMessage)
    → HasAddresses n
    → SenderFits msg
    → Quiet ip r n
    → Silent ip r n (replied n msg)
unfolding asks SenderFits concatenate
replied-Silent ip r n msg a fits q =
    if_elim (Silent ip r n)
      ((msg.opcode == opcode_request) && (msg.target_ip_address == n.ip_address))
      (push_frame n msg.sender_ethernet_address type_arp
        (list_of (from_string (Arp.fields (arp_reply n msg)))))
      n
      (λ _. record {
        quiet = q;
        same_ethernet = refl;
        same_ip = refl;
        requests =
            requests-push ip n.frames_out _ (rw (arp_reply-parse n msg a fits.0 fits.1) refl);
      })
      (λ _. record { quiet = q; same_ethernet = refl; same_ip = refl; requests = refl })

released-Silent :
    (ip r : ℕ) (n : NetworkInterface) (msg : ArpMessage)
    → Quiet ip r n
    → Silent ip r n (released n msg)
released-Silent ip r n msg q =
    let k = msg.sender_ip_address in
    let learned : CacheEntry = record { address = msg.sender_ethernet_address; timer = 0 } in
    let frames =
      frames_for n.ethernet_address msg.sender_ethernet_address k n.queueing_ip_datagrams in
    let silent =
      frames_for-ask ip n.ethernet_address msg.sender_ethernet_address k n.queueing_ip_datagrams in
    record {
      quiet = elim (Bool-cases (k == ip)) [
        | inl e ↦
            let same : k ≡ ip = ground arith in
            let young : 0 + r < cache_valid_time = elim q [
              | inl h ↦ omega (arith, h.2)
              | inr h ↦ omega (arith, h.2)
            ] in
            inr (
              learned,
              ap (λ i. lookup i (assign k learned n.ethernet_addr_cache)) (sym same)
                  ∙ lookup-assign_self k learned n.ethernet_addr_cache,
              young,
            )
        | inr e ↦
            let ne : k ≢ ip = λ (same : k ≡ ip). ground arith in
            elim q [
              | inl h ↦ inl (h.0, lookup-erase_ne k ip n.arp_timer ne ∙ h.1, h.2)
              | inr h ↦ inr (h.0, lookup-assign_ne k ip learned n.ethernet_addr_cache ne ∙ h.1, h.2)
            ]
      ];
      same_ethernet = refl;
      same_ip = refl;
      requests = omega (arith, requests-append ip n.frames_out frames, silent);
    }

-- One call after the other.
Silent-then :
    (ip r : ℕ) (n n1 n2 : NetworkInterface)
    → Silent ip r n n1
    → Silent ip r n1 n2
    → Silent ip r n n2
Silent-then ip r n n1 n2 s s' = record {
  quiet = s'.quiet;
  same_ethernet = s'.same_ethernet ∙ s.same_ethernet;
  same_ip = s'.same_ip ∙ s.same_ip;
  requests = s'.requests ∙ s.requests;
}

Silent-refl : (ip r : ℕ) (n : NetworkInterface) → Quiet ip r n → Silent ip r n n
Silent-refl ip r n q = record { quiet = q; same_ethernet = refl; same_ip = refl; requests = refl }

pub moved_addresses :
    (n n' : NetworkInterface)
    → n'.ethernet_address ≡ n.ethernet_address
    → n'.ip_address ≡ n.ip_address
    → HasAddresses n
    → HasAddresses n'
moved_addresses n n' e e' a = record { ethernet = rw e a.ethernet; ip = rw e' a.ip }

default_fits : SenderFits default_message
unfolding SenderFits
default_fits = omega arith

-- What a frame does.
pub receive-Silent :
    (ip r : ℕ) (n : NetworkInterface) (frame : EthernetFrame)
    → IsValid n
    → HasAddresses n
    → Quiet ip r n
    → length frame.payload ≤ 1
    → (n' : NetworkInterface) × (call n (receive frame) ≡ some n') × Silent ip r n n'
unfolding recv_frame
receive-Silent ip r n frame v a q short =
    let whole = to_buffer-short frame.payload short in
    let as_ipv4 = Ipv4.parse blank_datagram (str whole.0) in
    let as_arp = Arp.parse default_message (str whole.0) in
    let same = Silent-refl ip r n q in
    elim (Bool-cases (
      same_address frame.header.dst ethernet_broadcast
      || same_address frame.header.dst n.ethernet_address)) [
        | inr foreign ↦ (n, ap after (recv_frame-foreign n frame foreign), same)
        | inl ours ↦ elim (Bool-cases (frame.header.type == type_ipv4)) [
          | inl kind ↦ elim (Bool-cases (is_error as_ipv4.0)) [
            | inl bad ↦ (n, rw (ours, kind, whole.1, bad) refl, same)
            | inr fine ↦ (n, rw (ours, kind, whole.1, fine) refl, same)
          ]
          | inr kind ↦ elim (Bool-cases (is_error as_arp.0)) [
            | inl bad ↦ (n, rw (ours, kind, whole.1, bad) refl, same)
            | inr fine ↦
                let s = released-Silent ip r n as_arp.1 q in
                (
                  replied (released n as_arp.1) as_arp.1,
                  ap after (
                      recv_frame-arp n frame whole.0 as_arp.1 ours
                        (λ (e : frame.header.type ≡ type_ipv4). ground arith) whole.1
                        (ap (λ o. (o, as_arp.1)) (no_error_lem as_arp.0 fine))
                        (Sendable-Waits n.arp_timer as_arp.1.sender_ip_address
                          n.queueing_ip_datagrams v.waits)),
                  Silent-then ip r n _ _ s (
                      replied-Silent ip r (released n as_arp.1) as_arp.1
                        (moved_addresses n (released n as_arp.1) refl refl a)
                        (parse-SenderFits default_message (str whole.0) default_fits) s.quiet),
                )
          ]
        ]
      ]

pub tick-Silent :
    (ip ms r : ℕ) (n : NetworkInterface)
    → IsValid n
    → Quiet ip (ms + r) n
    → Silent ip r n (tick n ms)
unfolding tick
tick-Silent ip ms r n v q =
    let look = lookup-tick n ms ip v.distinct in
    record {
      quiet = elim q [
        | inl h ↦ inl (add64 h.0 ms, look.1 ∙ ap (older_timer ms) h.1, omega (arith, h.2))
        | inr h ↦
            let young : leb cache_valid_time (add64 h.0.timer ms) ≡ false = ground (arith, h.2) in
            inr (
              record (h.0) { timer = add64 h.0.timer ms },
              look.0 ∙ ap (kept ms) h.1 ∙ rw young refl,
              omega (arith, h.2),
            )
      ];
      same_ethernet = refl;
      same_ip = refl;
      requests = refl;
    }
