-- ===== src/Router/Queues.antt =====
-- The interfaces of the router of libsponge/router.hh, their queues, and what one datagram does to them.
use csed353_computer_network.Prelude.{
  ℕ, zero, suc, ◌<◌, ◌≡◌, ◌≢◌, refl, sym, ap, ◌∙◌, subst, Option, none, some, List, [], ◌∷◌, ◌==◌,
  map, arith, length, get_elem?, get_or, set, Bool-cases, Option-cases, ◌⊎◌, inl, inr, ltb, if_elim,
}
use csed353_computer_network.Ipv4.{InternetDatagram}
use csed353_computer_network.Ipv4
use csed353_computer_network.NetworkInterface.Queue.{buffers}
use csed353_computer_network.NetworkInterface.Valid.{IsValid, send_datagram-IsValid}
use csed353_computer_network.Router.{
  Route, matches, aged, first_match, hop, send_by, route_one_datagram,
}
use csed353_computer_network.Router.Forward.{get_elem?-some}
use csed353_computer_network.Router.Async.{
  AsyncNetworkInterface, send_datagram, from_ipv4_numeric, route_one,
}

-- The queues of the interfaces.
abbrev pub queues : List AsyncNetworkInterface → List (List InternetDatagram)
queues interfaces = map (λ a. a.datagrams_out) interfaces

abbrev pub AllValid : List AsyncNetworkInterface → Type 0
AllValid [] = Unit
AllValid (a ∷ rest) = IsValid a.interface × AllValid rest

-- Each route leads to one of `n` interfaces.
abbrev pub AllInRange : ℕ → List (Route ℕ) → Type 0
AllInRange n [] = Unit
AllInRange n (r ∷ rest) = (r.interface_num < n) × AllInRange n rest

-- The datagrams can be serialized once their time to live is one less.
abbrev pub AllSerialize : List InternetDatagram → Type 0
AllSerialize [] = Unit
AllSerialize (dgram ∷ rest) =
    (Ipv4.serialize (aged dgram) ≡ some (buffers (aged dgram))) × AllSerialize rest

none-ne-some : {A : Type 0} {a : A} → none ≢ some a
none-ne-some = λ e. cc e

some_injective : {A : Type 0} {a b : A} → some a ≡ some b → a ≡ b
some_injective e = cc e

-- Entries of lists that are set.
pub get_elem?-lt :
    {A : Type 0} (xs : List A) (i : ℕ) (a : A) → get_elem? xs i ≡ some a → i < length xs
get_elem?-lt [] i a e = absurd (none-ne-some e)
get_elem?-lt (x ∷ xs) zero a e = omega arith
get_elem?-lt (x ∷ xs) (suc i) a e = omega (arith, get_elem?-lt xs i a e)

pub get_elem?-set :
    {A : Type 0} (xs : List A) (i : ℕ) (a : A) → i < length xs → get_elem? (set xs i a) i ≡ some a
get_elem?-set [] i a h = absurd (omega arith)
get_elem?-set (x ∷ xs) zero a h = refl
get_elem?-set (x ∷ xs) (suc i) a h = get_elem?-set xs i a (omega arith)

pub set_twice : {A : Type 0} (xs : List A) (i : ℕ) (a b : A) → set (set xs i a) i b ≡ set xs i b
set_twice [] i a b = refl
set_twice (x ∷ xs) zero a b = refl
set_twice (x ∷ xs) (suc i) a b = ap (λ ys. x ∷ ys) (set_twice xs i a b)

pub set_same : {A : Type 0} (xs : List (List A)) (i : ℕ) → get_or xs i [] ≡ [] → set xs i [] ≡ xs
set_same [] i h = refl
set_same (x ∷ xs) zero h = ap (λ y. y ∷ xs) (sym h)
set_same (x ∷ xs) (suc i) h = ap (λ ys. x ∷ ys) (set_same xs i h)

pub set_empty : {A : Type 0} (xs : List (List A)) (i : ℕ) → get_or (set xs i []) i [] ≡ []
set_empty [] i = refl
set_empty (x ∷ xs) zero = refl
set_empty (x ∷ xs) (suc i) = set_empty xs i

pub ==_or : (i j : ℕ) → (i ≡ j) ⊎ (i ≢ j)
==_or i j = elim (Bool-cases (i == j)) [
  | inl e ↦ inl (ground arith)
  | inr e ↦ inr (λ (same : i ≡ j). ground arith)
]

pub IsValid-at :
    (is : List AsyncNetworkInterface) (i : ℕ) (a : AsyncNetworkInterface)
    → AllValid is
    → get_elem? is i ≡ some a
    → IsValid a.interface
IsValid-at [] i a v e = absurd (none-ne-some e)
IsValid-at (b ∷ is) zero a v e =
    subst (λ (c : AsyncNetworkInterface). IsValid c.interface) (some_injective e) v.0
IsValid-at (b ∷ is) (suc i) a v e = IsValid-at is i a v.1 e

pub AllValid-set :
    (is : List AsyncNetworkInterface) (i : ℕ) (a : AsyncNetworkInterface)
    → AllValid is
    → IsValid a.interface
    → AllValid (set is i a)
AllValid-set [] i a v h = tt
AllValid-set (b ∷ is) zero a v h = (h, v.1)
AllValid-set (b ∷ is) (suc i) a v h = (v.0, AllValid-set is i a v.1 h)

pub queues-set :
    (is : List AsyncNetworkInterface) (i : ℕ) (a : AsyncNetworkInterface)
    → queues (set is i a) ≡ set (queues is) i a.datagrams_out
queues-set [] i a = refl
queues-set (b ∷ is) zero a = refl
queues-set (b ∷ is) (suc i) a = ap (λ qs. b.datagrams_out ∷ qs) (queues-set is i a)

-- An interface that keeps its queue.
queues_same :
    (is : List AsyncNetworkInterface) (i : ℕ) (a b : AsyncNetworkInterface)
    → get_elem? is i ≡ some a
    → b.datagrams_out ≡ a.datagrams_out
    → queues (set is i b) ≡ queues is
queues_same [] i a b e same = refl
queues_same (c ∷ is) zero a b e same =
    ap (λ q. q ∷ queues is)
      (same ∙ ap (λ (d : AsyncNetworkInterface). d.datagrams_out) (sym (some_injective e)))
queues_same (c ∷ is) (suc i) a b e same =
    ap (λ qs. c.datagrams_out ∷ qs) (queues_same is i a b e same)

pub queue_at :
    (is : List AsyncNetworkInterface) (i : ℕ) (a : AsyncNetworkInterface)
    → get_elem? is i ≡ some a
    → get_or (queues is) i [] ≡ a.datagrams_out
queue_at [] i a e = absurd (none-ne-some e)
queue_at (b ∷ is) zero a e = ap (λ (c : AsyncNetworkInterface). c.datagrams_out) (some_injective e)
queue_at (b ∷ is) (suc i) a e = queue_at is i a e

pub length-queues : (is : List AsyncNetworkInterface) → length (queues is) ≡ length is
length-queues [] = refl
length-queues (b ∷ is) = ap suc (length-queues is)

match_in_range :
    (n : ℕ) (table : List (Route ℕ)) (dst : ℕ) (r : Route ℕ)
    → AllInRange n table
    → first_match table dst ≡ some r
    → r.interface_num < n
unfolding first_match
match_in_range n [] dst r h e = absurd (none-ne-some e)
match_in_range n (q ∷ table) dst r h e = elim (Bool-cases (matches q dst)) [
  | inl hit ↦
      let found : first_match (q ∷ table) dst ≡ some q = rw hit refl in
      subst (λ (p : Route ℕ). p.interface_num < n) (some_injective (sym found ∙ e)) h.0
  | inr miss ↦
      let passed : first_match (q ∷ table) dst ≡ first_match table dst = rw miss refl in
      match_in_range n table dst r h.1 (sym passed ∙ e)
]

-- The interfaces after a datagram: as many, valid, and with the queues that they had.
abbrev pub Routed : List AsyncNetworkInterface → Option (List AsyncNetworkInterface) → Type 0
Routed is o =
    (is' : List AsyncNetworkInterface) × (o ≡ some is') × AllValid is' × (queues is' ≡ queues is)

send_by_lem :
    (n : ℕ) (is : List AsyncNetworkInterface) (dgram : InternetDatagram) (r : Route ℕ)
    → AllValid is
    → r.interface_num < length is
    → Ipv4.serialize (aged dgram) ≡ some (buffers (aged dgram))
    → Routed is (send_by from_ipv4_numeric send_datagram (some r) is dgram)
unfolding send_datagram
send_by_lem n is dgram r v range good =
    let there = get_elem?-some is r.interface_num range in
    let a = there.0 in
    let address = hop from_ipv4_numeric send_datagram r.next_hop dgram.header.dst in
    let sent =
      send_datagram-IsValid a.interface (aged dgram) address
        (IsValid-at is r.interface_num a v there.1) good in
    let b : AsyncNetworkInterface = record a { interface = sent.0 } in
    (
      set is r.interface_num b,
      rw (there.1, sent.1) refl,
      AllValid-set is r.interface_num b v sent.2,
      queues_same is r.interface_num a b there.1 refl,
    )

pub route_one_lem :
    (table : List (Route ℕ)) (is : List AsyncNetworkInterface) (dgram : InternetDatagram)
    → AllValid is
    → AllInRange (length is) table
    → Ipv4.serialize (aged dgram) ≡ some (buffers (aged dgram))
    → Routed is (route_one table is dgram)
unfolding route_one_datagram
route_one_lem table is dgram v range good =
    if_elim (Routed is) (ltb 1 dgram.header.ttl)
      (send_by from_ipv4_numeric send_datagram (first_match table dgram.header.dst) is dgram)
      (some is)
      (λ _. elim (Option-cases (first_match table dgram.header.dst)) [
        | inl missing ↦ rw missing (is, refl, v, refl)
        | inr found ↦ rw found.1 (
            send_by_lem (length is) is dgram found.0 v
              (match_in_range (length is) table dgram.header.dst found.0 range found.1) good)
      ])
      (λ _. (is, refl, v, refl))
