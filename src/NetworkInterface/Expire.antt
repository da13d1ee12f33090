-- ===== src/NetworkInterface/Expire.antt =====
-- `NetworkInterface::tick` of libsponge/network_interface.cc: what time does to the cache and the timers.
use csed353_computer_network.Prelude.{
  ℕ, ◌≡◌, refl, sym, ap, ap₂, ◌∙◌, Bool, false, Option, none, some, List, [], ◌∷◌, ◌==◌, leb,
  if◌then◌else◌, arith, lookup, has, Distinct, lookup-erase_keys, add64, Bool-cases, inl, inr,
}
use csed353_computer_network.NetworkInterface.{
  NetworkInterface, CacheEntry, cache_valid_time, aged, keys_to_erase, aged_timers, tick,
}

-- An entry some time later.
abbrev pub older : ℕ → Option CacheEntry → Option CacheEntry
older ms none = none
older ms (some cached) = some (record cached { timer = add64 cached.timer ms })

abbrev pub is_old : Option CacheEntry → Bool
is_old none = false
is_old (some cached) = leb cache_valid_time cached.timer

abbrev pub older_timer : ℕ → Option ℕ → Option ℕ
older_timer ms none = none
older_timer ms (some timer) = some (add64 timer ms)

lookup-aged : (ms k : ℕ) (m : List (ℕ × CacheEntry)) → lookup k (aged ms m) ≡ older ms (lookup k m)
unfolding lookup aged
lookup-aged ms k [] = refl
lookup-aged ms k (entry ∷ rest) = elim (Bool-cases (entry.0 == k)) [
  | inl e ↦ rw e refl
  | inr e ↦ rw e (lookup-aged ms k rest)
]

pub lookup-aged_timers :
    (ms k : ℕ) (m : List (ℕ × ℕ)) → lookup k (aged_timers ms m) ≡ older_timer ms (lookup k m)
unfolding lookup aged_timers
lookup-aged_timers ms k [] = refl
lookup-aged_timers ms k (entry ∷ rest) = elim (Bool-cases (entry.0 == k)) [
  | inl e ↦ rw e refl
  | inr e ↦ rw e (lookup-aged_timers ms k rest)
]

pub Distinct-aged : (ms : ℕ) (m : List (ℕ × CacheEntry)) → Distinct m → Distinct (aged ms m)
unfolding aged Distinct
Distinct-aged ms [] h = tt
Distinct-aged ms (entry ∷ rest) h =
    (lookup-aged ms entry.0 rest ∙ ap (older ms) h.0, Distinct-aged ms rest h.1)

has-keys_to_erase :
    (k : ℕ) (m : List (ℕ × CacheEntry)) → Distinct m → has (keys_to_erase m) k ≡ is_old (lookup k m)
unfolding lookup keys_to_erase has Distinct
has-keys_to_erase k [] h = refl
has-keys_to_erase k (entry ∷ rest) h =
    let rec = has-keys_to_erase k rest h.1 in
    elim (Bool-cases (entry.0 == k)) [
      | inl e ↦
          let same : entry.0 ≡ k = ground arith in
          let gone : has (keys_to_erase rest) k ≡ false =
            rec ∙ ap is_old (ap (λ i. lookup i rest) (sym same) ∙ h.0) in
          elim (Bool-cases (leb cache_valid_time entry.1.timer)) [
            | inl old ↦ rw (e, old, e) refl
            | inr young ↦ rw (e, young, gone) refl
          ]
      | inr e ↦ elim (Bool-cases (leb cache_valid_time entry.1.timer)) [
        | inl old ↦ rw (e, old, e) rec
        | inr young ↦ rw (e, young) rec
      ]
    ]

-- What is left of an entry.
abbrev pub kept : ℕ → Option CacheEntry → Option CacheEntry
kept ms none = none
kept ms (some cached) =
    if leb cache_valid_time (add64 cached.timer ms)
    then none
    else some (record cached { timer = add64 cached.timer ms })

kept_lem :
    (ms : ℕ) (o : Option CacheEntry)
    → (if is_old (older ms o) then none else older ms o) ≡ kept ms o
kept_lem ms none = refl
kept_lem ms (some cached) = refl

-- If no address stands in the cache twice, the cache tells of an address after a tick what it told
-- before, with the age of the entry that much greater, unless that is 30 seconds or more: then it tells
-- nothing. The time since an address was asked for is that much greater, too.
pub lookup-tick :
    (n : NetworkInterface) (ms k : ℕ)
    → Distinct n.ethernet_addr_cache
    → (lookup k (tick n ms).ethernet_addr_cache ≡ kept ms (lookup k n.ethernet_addr_cache))
      × (lookup k (tick n ms).arp_timer ≡ older_timer ms (lookup k n.arp_timer))
unfolding tick
lookup-tick n ms k distinct =
    let cache = aged ms n.ethernet_addr_cache in
    (
      lookup-erase_keys (keys_to_erase cache) k cache
          ∙ ap₂ (λ b o. if b then none else o)
              (has-keys_to_erase k cache (Distinct-aged ms n.ethernet_addr_cache distinct)
                ∙ ap is_old (lookup-aged ms k n.ethernet_addr_cache))
              (lookup-aged ms k n.ethernet_addr_cache)
          ∙ kept_lem ms (lookup k n.ethernet_addr_cache),
      lookup-aged_timers ms k n.arp_timer,
    )
