-- ===== src/NetworkInterface/Valid.antt =====
-- The invariant of `NetworkInterface` of libsponge/network_interface.cc.
use csed353_computer_network.Prelude.{
  ℕ, ◌≡◌, ◌≢◌, sym, ap, ◌∙◌, subst, true, false, none, some, List, [], ◌∷◌, ◌++◌, ◌==◌, arith,
  lookup, assign, erase, Distinct, lookup-assign_self, lookup-assign_ne, lookup-erase_ne,
  Bool-cases, Option-cases, inl, inr, if_elim,
}
use csed353_computer_network.Ipv4.{InternetDatagram}
use csed353_computer_network.Ipv4
use csed353_computer_network.NetworkInterface.{NetworkInterface, must_ask, send_datagram}
use csed353_computer_network.NetworkInterface.Queue.{buffers, others, Sendable, send_cached}
use csed353_computer_network.NetworkInterface.Send.{requested, waiting, send_uncached}

-- Each datagram of the queue can be serialized, and its next hop was asked for.
unfoldable pub Waits : List (ℕ × ℕ) → List (InternetDatagram × ℕ) → Type 0
Waits timers [] = Unit
Waits timers (entry ∷ rest) =
    (Ipv4.serialize entry.0 ≡ some (buffers entry.0))
    × (lookup entry.1 timers ≢ none)
    × Waits timers rest

-- No address is cached twice, what was asked for is not cached, and what waits was asked for.
pub record IsValid (n : NetworkInterface) : Type 0 where
  pub distinct : Distinct n.ethernet_addr_cache
  pub apart : (k : ℕ) → lookup k n.arp_timer ≢ none → lookup k n.ethernet_addr_cache ≡ none
  pub waits : Waits n.arp_timer n.queueing_ip_datagrams

Waits-append :
    (timers : List (ℕ × ℕ)) (queue : List (InternetDatagram × ℕ)) (dgram : InternetDatagram)
    (ip : ℕ)
    → Waits timers queue
    → Ipv4.serialize dgram ≡ some (buffers dgram)
    → lookup ip timers ≢ none
    → Waits timers (queue ++ ((dgram, ip) ∷ []))
unfolding Waits
Waits-append timers [] dgram ip h e there = (e, there, tt)
Waits-append timers (entry ∷ queue) dgram ip h e there =
    (h.0, h.1, Waits-append timers queue dgram ip h.2 e there)

-- Timers that are not erased keep what waits for them.
pub Waits-more :
    (timers timers' : List (ℕ × ℕ)) (queue : List (InternetDatagram × ℕ))
    → ((k : ℕ) → lookup k timers ≢ none → lookup k timers' ≢ none)
    → Waits timers queue
    → Waits timers' queue
unfolding Waits
Waits-more timers timers' [] more h = tt
Waits-more timers timers' (entry ∷ queue) more h =
    (h.0, more entry.1 h.1, Waits-more timers timers' queue more h.2)

pub Waits-others :
    (timers : List (ℕ × ℕ)) (ip : ℕ) (queue : List (InternetDatagram × ℕ))
    → Waits timers queue
    → Waits (erase ip timers) (others ip queue)
unfolding Waits others
Waits-others timers ip [] h = tt
Waits-others timers ip (entry ∷ queue) h =
    if_elim (Waits (erase ip timers)) (entry.1 == ip) (others ip queue) (entry ∷ others ip queue)
      (λ e. Waits-others timers ip queue h.2)
      (λ e.
        let ne : ip ≢ entry.1 = λ (same : ip ≡ entry.1). ground arith in
        (
          h.0,
          (λ (gone : lookup entry.1 (erase ip timers) ≡ none).
              h.1 (sym (lookup-erase_ne ip entry.1 timers ne) ∙ gone)),
          Waits-others timers ip queue h.2,
        ))

pub Sendable-Waits :
    (timers : List (ℕ × ℕ)) (ip : ℕ) (queue : List (InternetDatagram × ℕ))
    → Waits timers queue
    → Sendable ip queue
unfolding Waits Sendable
Sendable-Waits timers ip [] h = tt
Sendable-Waits timers ip (entry ∷ queue) h = ((λ _. h.0), Sendable-Waits timers ip queue h.2)

true-ne-false : true ≢ false
true-ne-false = λ e. cc e

some-ne-none : {A : Type 0} (a : A) → some a ≢ none
some-ne-none a = λ e. cc e

-- A timer that is set.
assign-there :
    (ip k : ℕ) (timers : List (ℕ × ℕ))
    → lookup k timers ≢ none
    → lookup k (assign ip 0 timers) ≢ none
assign-there ip k timers there = λ gone. elim (Bool-cases (ip == k)) [
  | inl e ↦
      let same : ip ≡ k = ground arith in
      some-ne-none 0
        (sym (lookup-assign_self ip 0 timers) ∙ ap (λ i. lookup i (assign ip 0 timers)) same ∙ gone)
  | inr e ↦ there (sym (lookup-assign_ne ip k 0 timers (λ (same : ip ≡ k). ground arith)) ∙ gone)
]

requested-IsValid :
    (n : NetworkInterface) (dgram : InternetDatagram) (ip : ℕ)
    → IsValid n
    → lookup ip n.ethernet_addr_cache ≡ none
    → Ipv4.serialize dgram ≡ some (buffers dgram)
    → IsValid (record (requested n ip) {
      queueing_ip_datagrams = n.queueing_ip_datagrams ++ ((dgram, ip) ∷ []);
    })
requested-IsValid n dgram ip v missing good =
    let timers = assign ip 0 n.arp_timer in
    let set : lookup ip timers ≢ none =
      λ gone. some-ne-none 0 (sym (lookup-assign_self ip 0 n.arp_timer) ∙ gone) in
    record {
      distinct = v.distinct;
      apart = λ k there. elim (Bool-cases (ip == k)) [
        | inl e ↦
            let same : ip ≡ k = ground arith in
            subst (λ i. lookup i n.ethernet_addr_cache ≡ none) same missing
        | inr e ↦ v.apart k (λ gone.
            there (lookup-assign_ne ip k 0 n.arp_timer (λ (same : ip ≡ k). ground arith) ∙ gone))
      ];
      waits =
          Waits-append timers n.queueing_ip_datagrams dgram ip
            (Waits-more n.arp_timer timers n.queueing_ip_datagrams
              (λ k there. assign-there ip k n.arp_timer there) v.waits)
            good set;
    }

waiting-IsValid :
    (n : NetworkInterface) (dgram : InternetDatagram) (ip : ℕ)
    → IsValid n
    → lookup ip n.ethernet_addr_cache ≡ none
    → Ipv4.serialize dgram ≡ some (buffers dgram)
    → IsValid (waiting n dgram ip)
waiting-IsValid n dgram ip v missing good = elim (Bool-cases (must_ask (lookup ip n.arp_timer))) [
  | inl e ↦ rw e (requested-IsValid n dgram ip v missing good)
  | inr e ↦
      let there : lookup ip n.arp_timer ≢ none =
        λ gone. true-ne-false (sym (ap must_ask gone) ∙ e) in
      rw e (record {
        distinct = v.distinct;
        apart = v.apart;
        waits = Waits-append n.arp_timer n.queueing_ip_datagrams dgram ip v.waits good there;
      })
]

-- A datagram that can be serialized is taken without a throw.
pub send_datagram-IsValid :
    (n : NetworkInterface) (dgram : InternetDatagram) (ip : ℕ)
    → IsValid n
    → Ipv4.serialize dgram ≡ some (buffers dgram)
    → (n' : NetworkInterface) × (send_datagram n dgram ip ≡ some n') × IsValid n'
send_datagram-IsValid n dgram ip v good = elim (Option-cases (lookup ip n.ethernet_addr_cache)) [
  | inl missing ↦ (_, send_uncached n dgram ip missing, waiting-IsValid n dgram ip v missing good)
  | inr found ↦ (
    _,
    send_cached n dgram ip found.0 (buffers dgram) found.1 good,
    record { distinct = v.distinct; apart = v.apart; waits = v.waits },
  )
]
