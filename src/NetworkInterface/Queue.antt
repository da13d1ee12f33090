-- ===== src/NetworkInterface/Queue.antt =====
-- The loop over the queued datagrams in `NetworkInterface::recv_frame` of libsponge/network_interface.cc.
use csed353_computer_network.Prelude.{
  ℕ, zero, suc, ◌≤◌, ◌≡◌, refl, sym, ap, ap₂, ◌∙◌, Option, none, some, List, [], ◌∷◌, ◌++◌, ◌==◌,
  if◌then◌else◌, arith, length, get_elem?, remove_at, lookup, append_assoc, append-nil,
  length-append, Bool-cases, inl, inr,
}
use csed353_computer_network.Ipv4.{InternetDatagram}
use csed353_computer_network.Ipv4
use csed353_computer_network.Buffers.{BufferList}
use csed353_computer_network.Ethernet.{EthernetAddress, EthernetFrame, type_ipv4}
use csed353_computer_network.NetworkInterface.{
  NetworkInterface, CacheEntry, push_frame, send_by, send_datagram, send_queued,
}

-- The buffers of a datagram that can be serialized.
abbrev buffers_or_none : Option BufferList → BufferList
buffers_or_none none = []
buffers_or_none (some buffers) = buffers

abbrev pub buffers : InternetDatagram → BufferList
buffers dgram = buffers_or_none (Ipv4.serialize dgram)

-- The frame that carries a datagram.
abbrev pub ipv4_frame : EthernetAddress → EthernetAddress → InternetDatagram → EthernetFrame
ipv4_frame src dst dgram = record {
  header = record { dst = dst; src = src; type = type_ipv4 };
  payload = buffers dgram;
}

-- The frames that carry the datagrams of the queue that wait for `ip`, in their order.
unfoldable pub frames_for :
    EthernetAddress → EthernetAddress → ℕ → List (InternetDatagram × ℕ) → List EthernetFrame
frames_for src dst ip [] = []
frames_for src dst ip (entry ∷ rest) =
    let later = frames_for src dst ip rest in
    if entry.1 == ip then ipv4_frame src dst entry.0 ∷ later else later

-- The datagrams that wait for another address, in their order.
unfoldable pub others : ℕ → List (InternetDatagram × ℕ) → List (InternetDatagram × ℕ)
others ip [] = []
others ip (entry ∷ rest) =
    let later = others ip rest in if entry.1 == ip then later else entry ∷ later

-- The datagrams that wait for `ip` can be serialized.
unfoldable pub Sendable : ℕ → List (InternetDatagram × ℕ) → Type 0
Sendable ip [] = Unit
Sendable ip (entry ∷ rest) =
    (entry.1 ≡ ip → Ipv4.serialize entry.0 ≡ some (buffers entry.0)) × Sendable ip rest

get_elem?-middle :
    {A : Type 0} (before : List A) (x : A) (after : List A)
    → get_elem? (before ++ (x ∷ after)) (length before) ≡ some x
get_elem?-middle [] x after = refl
get_elem?-middle (y ∷ before) x after = get_elem?-middle before x after

get_elem?-end : {A : Type 0} (xs : List A) → get_elem? (xs ++ []) (length xs) ≡ none
get_elem?-end [] = refl
get_elem?-end (y ∷ xs) = get_elem?-end xs

remove_at-middle :
    {A : Type 0} (before : List A) (x : A) (after : List A)
    → remove_at (before ++ (x ∷ after)) (length before) ≡ before ++ after
remove_at-middle [] x after = refl
remove_at-middle (y ∷ before) x after = ap (λ zs. y ∷ zs) (remove_at-middle before x after)

-- A datagram whose next hop is cached is sent at once.
pub send_cached :
    (n : NetworkInterface) (dgram : InternetDatagram) (ip : ℕ) (cached : CacheEntry)
    (payload : BufferList)
    → lookup ip n.ethernet_addr_cache ≡ some cached
    → Ipv4.serialize dgram ≡ some payload
    → send_datagram n dgram ip ≡ some (push_frame n cached.address type_ipv4 payload)
unfolding send_datagram send_by
send_cached n dgram ip cached payload found good = rw (found, good) refl

-- The interface with another queue.
abbrev pub with_queue : NetworkInterface → List (InternetDatagram × ℕ) → NetworkInterface
with_queue n queue = record n { queueing_ip_datagrams = queue }

-- The interface once more frames were pushed.
abbrev pub with_frames : NetworkInterface → List EthernetFrame → NetworkInterface
with_frames n frames = record n { frames_out = n.frames_out ++ frames }

send_queued_lem :
    (fuel : ℕ) (n : NetworkInterface) (ip : ℕ) (cached : CacheEntry)
    (before after : List (InternetDatagram × ℕ))
    → length after ≤ fuel
    → lookup ip n.ethernet_addr_cache ≡ some cached
    → Sendable ip after
    → send_queued fuel (with_queue n (before ++ after)) ip (length before)
      ≡ some (
          with_queue
            (with_frames n (frames_for n.ethernet_address cached.address ip after))
            (before ++ others ip after))
unfolding send_queued frames_for others Sendable
send_queued_lem zero n ip cached before [] enough found good =
    ap (λ frames. some (with_queue (record n { frames_out = frames }) (before ++ [])))
      (sym (append-nil n.frames_out))
send_queued_lem (suc fuel) n ip cached before [] enough found good =
    rw (send_queued, get_elem?-end before)
      (ap (λ frames. some (with_queue (record n { frames_out = frames }) (before ++ [])))
        (sym (append-nil n.frames_out)))
send_queued_lem zero n ip cached before (entry ∷ after) enough found good = absurd (omega arith)
send_queued_lem (suc fuel) n ip cached before (entry ∷ after) enough found good =
    elim (Bool-cases (entry.1 == ip)) [
      | inl e ↦
          let same : entry.1 ≡ ip = ground arith in
          let frame = ipv4_frame n.ethernet_address cached.address entry.0 in
          let later = frames_for n.ethernet_address cached.address ip after in
          rw
            (
              send_queued,
              get_elem?-middle before entry after,
              e,
              send_cached (with_queue n (before ++ (entry ∷ after))) entry.0 entry.1 cached
                  (buffers entry.0) (ap (λ k. lookup k n.ethernet_addr_cache) same ∙ found)
                  (good.0 same),
              remove_at-middle before entry after,
            )
            (send_queued_lem fuel (with_frames n (frame ∷ [])) ip cached before after (omega arith)
                found good.1
              ∙ ap
                  (λ frames.
                    some
                      (with_queue (record n { frames_out = frames }) (before ++ others ip after)))
                  (append_assoc n.frames_out (frame ∷ []) later))
      | inr e ↦
          rw (send_queued, get_elem?-middle before entry after, e)
            (ap₂ (λ queue i. send_queued fuel (with_queue n queue) ip i)
                (sym (append_assoc before (entry ∷ []) after))
                (let l = length-append before (entry ∷ []) in omega (arith, l))
              ∙ send_queued_lem fuel n ip cached (before ++ (entry ∷ [])) after (omega arith) found
                  good.1
              ∙ ap
                  (λ queue. some (
                    with_queue
                      (with_frames n (frames_for n.ethernet_address cached.address ip after))
                      queue))
                  (append_assoc before (entry ∷ []) (others ip after)))
    ]

-- With the address cached, and if the datagrams that wait for it can be serialized, as many rounds as
-- there are datagrams are enough: those that wait for the address are sent in their order and leave the
-- queue, and the others stay in theirs.
pub send_queued-all :
    (n : NetworkInterface) (ip : ℕ) (cached : CacheEntry)
    → lookup ip n.ethernet_addr_cache ≡ some cached
    → Sendable ip n.queueing_ip_datagrams
    → send_queued (length n.queueing_ip_datagrams) n ip 0
      ≡ some (
          with_queue
            (with_frames n
              (frames_for n.ethernet_address cached.address ip n.queueing_ip_datagrams))
            (others ip n.queueing_ip_datagrams))
send_queued-all n ip cached found good =
    send_queued_lem (length n.queueing_ip_datagrams) n ip cached [] n.queueing_ip_datagrams
      (omega arith) found good
