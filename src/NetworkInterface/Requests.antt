-- ===== src/NetworkInterface/Requests.antt =====
-- How often `NetworkInterface` of libsponge/network_interface.cc broadcasts a request for an address.
use csed353_computer_network.Prelude.{
  ℕ, ◌+◌, ◌^◌, ◌<◌, ◌≡◌, ◌≢◌, refl, sym, ap, ◌∙◌, subst, ◌⊎◌, Bool, true, false, not, ◌&&◌, none,
  some, List, [], ◌∷◌, ◌++◌, ◌==◌, if◌then◌else◌, arith, lookup, lookup-assign_ne, Bool-cases,
  Option-cases, inl, inr, if_elim,
}
use csed353_computer_network.Parser.{is_error}
use csed353_computer_network.Ipv4.{InternetDatagram}
use csed353_computer_network.Ipv4
use csed353_computer_network.Buffers.{concatenate}
use csed353_computer_network.Ethernet.{EthernetAddress, EthernetFrame, type_arp}
use csed353_computer_network.Arp.{ArpMessage, default_message, opcode_request}
use csed353_computer_network.Arp
use csed353_computer_network.NetworkInterface.{
  NetworkInterface, CacheEntry, arp_req_time, cache_valid_time, must_ask, send_datagram,
}
use csed353_computer_network.NetworkInterface.Queue.{buffers, frames_for, send_cached}
use csed353_computer_network.NetworkInterface.Send.{
  HasAddresses, requested, asked, send_uncached, arp_request-parse,
}

-- The frame is a request for `ip`.
unfoldable pub asks : ℕ → EthernetFrame → Bool
asks ip frame =
    let parsed = Arp.parse default_message (concatenate frame.payload) in
    (frame.header.type == type_arp)
    && not (is_error parsed.0)
    && (parsed.1.opcode == opcode_request)
    && (parsed.1.target_ip_address == ip)

-- How many of the frames are.
unfoldable pub requests : ℕ → List EthernetFrame → ℕ
requests ip [] = 0
requests ip (frame ∷ rest) = (if asks ip frame then 1 else 0) + requests ip rest

pub requests-append :
    (ip : ℕ) (xs ys : List EthernetFrame) → requests ip (xs ++ ys) ≡ requests ip xs + requests ip ys
unfolding requests
requests-append ip [] ys = omega arith
requests-append ip (x ∷ xs) ys = omega (arith, requests-append ip xs ys)

-- A frame that does not ask adds nothing.
pub requests-push :
    (ip : ℕ) (frames : List EthernetFrame) (frame : EthernetFrame)
    → asks ip frame ≡ false
    → requests ip (frames ++ (frame ∷ [])) ≡ requests ip frames
unfolding requests
requests-push ip frames frame e = requests-append ip frames (frame ∷ []) ∙ rw e (omega arith)

pub frames_for-ask :
    (ip : ℕ) (src dst : EthernetAddress) (k : ℕ) (queue : List (InternetDatagram × ℕ))
    → requests ip (frames_for src dst k queue) ≡ 0
unfolding requests frames_for asks
frames_for-ask ip src dst k [] = refl
frames_for-ask ip src dst k (entry ∷ queue) = elim (Bool-cases (entry.1 == k)) [
  | inl e ↦ rw e (omega (arith, frames_for-ask ip src dst k queue))
  | inr e ↦ rw e (frames_for-ask ip src dst k queue)
]

-- For the next `r` milliseconds there is no reason to ask for `ip`.
abbrev pub Quiet : ℕ → ℕ → NetworkInterface → Type 0
Quiet ip r n =
    ((t : ℕ) × (lookup ip n.arp_timer ≡ some t) × (t + r < arp_req_time))
    ⊎ ((cached : CacheEntry) × (lookup ip n.ethernet_addr_cache ≡ some cached)
        × (cached.timer + r < cache_valid_time))

-- The interface after a call: still quiet, its addresses what they were, and no request for `ip` more.
pub record Silent (ip r : ℕ) (n n' : NetworkInterface) : Type 0 where
  pub quiet : Quiet ip r n'
  pub same_ethernet : n'.ethernet_address ≡ n.ethernet_address
  pub same_ip : n'.ip_address ≡ n.ip_address
  pub requests : requests ip n'.frames_out ≡ requests ip n.frames_out

some-ne-none : {A : Type 0} (a : A) → some a ≢ none
some-ne-none a = λ e. cc e

true-ne-false : true ≢ false
true-ne-false = λ e. cc e

pub some_injective : {A : Type 0} {a b : A} → some a ≡ some b → a ≡ b
some_injective e = cc e

-- What is quiet and not cached is not asked for.
Quiet-must_ask :
    (ip r : ℕ) (n : NetworkInterface)
    → Quiet ip r n
    → lookup ip n.ethernet_addr_cache ≡ none
    → must_ask (lookup ip n.arp_timer) ≡ false
Quiet-must_ask ip r n (inl h) missing = ap must_ask h.1 ∙ ground (arith, h.2)
Quiet-must_ask ip r n (inr h) missing = absurd (some-ne-none h.0 (sym h.1 ∙ missing))

requested-Silent :
    (ip r : ℕ) (n : NetworkInterface) (k : ℕ)
    → HasAddresses n
    → k < 2 ^ 32
    → k ≢ ip
    → Quiet ip r n
    → Silent ip r n (requested n k)
unfolding asks concatenate
requested-Silent ip r n k a small ne q = record {
  quiet = elim q [
    | inl h ↦ inl (h.0, lookup-assign_ne k ip 0 n.arp_timer ne ∙ h.1, h.2)
    | inr h ↦ inr h
  ];
  same_ethernet = refl;
  same_ip = refl;
  requests = requests-push ip n.frames_out _ (
      let other : (k == ip) ≡ false = ground arith in
      rw (arp_request-parse n k a small, other) refl);
}

asked-Silent :
    (ip r : ℕ) (n : NetworkInterface) (k : ℕ)
    → HasAddresses n
    → k < 2 ^ 32
    → lookup k n.ethernet_addr_cache ≡ none
    → Quiet ip r n
    → Silent ip r n (asked n k)
asked-Silent ip r n k a small missing q =
    if_elim (Silent ip r n) (must_ask (lookup k n.arp_timer)) (requested n k) n
      (λ must.
        requested-Silent ip r n k a small
          (λ same.
            true-ne-false
              (sym must ∙ Quiet-must_ask k r n (subst (λ i. Quiet i r n) (sym same) q) missing))
          q)
      (λ _. record { quiet = q; same_ethernet = refl; same_ip = refl; requests = refl })

pub send-Silent :
    (ip r : ℕ) (n n' : NetworkInterface) (dgram : InternetDatagram) (k : ℕ)
    → HasAddresses n
    → k < 2 ^ 32
    → Ipv4.serialize dgram ≡ some (buffers dgram)
    → Quiet ip r n
    → send_datagram n dgram k ≡ some n'
    → Silent ip r n n'
unfolding asks concatenate
send-Silent ip r n n' dgram k a small good q e =
    elim (Option-cases (lookup k n.ethernet_addr_cache)) [
      | inl missing ↦
          let s = asked-Silent ip r n k a small missing q in
          subst (Silent ip r n) (some_injective (sym (send_uncached n dgram k missing) ∙ e))
            (record {
              quiet = s.quiet;
              same_ethernet = s.same_ethernet;
              same_ip = s.same_ip;
              requests = s.requests;
            })
      | inr found ↦
          subst (Silent ip r n)
            (some_injective (sym (send_cached n dgram k found.0 (buffers dgram) found.1 good) ∙ e))
            (record {
              quiet = q;
              same_ethernet = refl;
              same_ip = refl;
              requests = requests-push ip n.frames_out _ refl;
            })
    ]
