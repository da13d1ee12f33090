-- ===== src/Router/Drain.antt =====
-- `Router::route` of libsponge/router.cc empties the queues of its interfaces.
use csed353_computer_network.Prelude.{
  ℕ, zero, suc, ◌+◌, ◌<◌, ◌≡◌, refl, sym, ap, ◌∙◌, subst, Option, some, List, [], ◌∷◌, arith,
  length, get_elem?, get_or, set, drop, length-set, get_or-set_ne, inl, inr,
}
use csed353_computer_network.Ipv4.{InternetDatagram}
use csed353_computer_network.Router.{Route}
use csed353_computer_network.Router.Forward.{get_elem?-some}
use csed353_computer_network.Router.Async.{
  AsyncNetworkInterface, Router, pop, drain, route_rounds, route,
}
use csed353_computer_network.Router.Queues.{
  get_elem?-lt, get_elem?-set, set_twice, set_same, set_empty, ==_or, IsValid-at, AllValid-set,
  queues-set, queue_at, length-queues, route_one_lem, queues, AllValid, AllInRange, AllSerialize,
}

length_same :
    (is is' : List AsyncNetworkInterface) → queues is' ≡ queues is → length is' ≡ length is
length_same is is' e = sym (length-queues is') ∙ ap length e ∙ length-queues is

-- The interfaces once the i-th queue is empty.
abbrev pub Drained : ℕ → List AsyncNetworkInterface → Option (List AsyncNetworkInterface) → Type 0
Drained i is o =
    (is' : List AsyncNetworkInterface) × (o ≡ some is')
    × AllValid is'
    × (queues is' ≡ set (queues is) i [])

-- As much fuel as there are datagrams in the queue, and one more, is enough.
drain_lem :
    (fuel : ℕ) (table : List (Route ℕ)) (i : ℕ) (is : List AsyncNetworkInterface)
    (a : AsyncNetworkInterface) (q : List InternetDatagram)
    → get_elem? is i ≡ some a
    → a.datagrams_out ≡ q
    → length q < fuel
    → AllValid is
    → AllInRange (length is) table
    → AllSerialize q
    → Drained i is (drain fuel table i is)
unfolding drain
drain_lem zero table i is a q there holds enough v range good = absurd (omega arith)
drain_lem (suc fuel) table i is a [] there holds enough v range good = (
  is,
  rw (drain, there, holds) refl,
  v,
  sym (set_same (queues is) i (queue_at is i a there ∙ holds)),
)
drain_lem (suc fuel) table i is a (dgram ∷ q) there holds enough v range good =
    let routed = route_one_lem table is dgram v range good.0 in
    let is1 = routed.0 in
    let size = length_same is is1 routed.3 in
    let there1 = get_elem?-some is1 i (omega (arith, size, get_elem?-lt is i a there)) in
    let a1 = there1.0 in
    let holds1 : a1.datagrams_out ≡ dgram ∷ q =
      sym (queue_at is1 i a1 there1.1)
      ∙ ap (λ qs. get_or qs i []) routed.3
      ∙ queue_at is i a there
      ∙ holds in
    let is2 = set is1 i (pop a1) in
    let rest =
      drain_lem fuel table i is2 (pop a1) q
        (get_elem?-set is1 i (pop a1) (omega (arith, size, get_elem?-lt is i a there)))
        (ap (drop 1) holds1) (omega arith)
        (AllValid-set is1 i (pop a1) routed.2 (IsValid-at is1 i a1 routed.2 there1.1))
        (subst (λ n. AllInRange n table) (sym (length-set is1 i (pop a1) ∙ size)) range) good.1 in
    (
      rest.0,
      rw (drain, there, holds, routed.1, there1.1) rest.1,
      rest.2,
      rest.3
          ∙ ap (λ qs. set qs i []) (queues-set is1 i (pop a1))
          ∙ set_twice (queues is1) i (pop a1).datagrams_out []
          ∙ ap (λ qs. set qs i []) routed.3,
    )

-- Every datagram that is queued somewhere can be serialized.
abbrev pub QueuesSerialize : List (List InternetDatagram) → Type 0
QueuesSerialize qs = (j : ℕ) → AllSerialize (get_or qs j [])

-- The first `i` queues are empty.
abbrev EmptyUpTo : ℕ → List (List InternetDatagram) → Type 0
EmptyUpTo i qs = (j : ℕ) → j < i → get_or qs j [] ≡ []

serialize_after :
    (i j : ℕ) (qs : List (List InternetDatagram))
    → QueuesSerialize qs
    → AllSerialize (get_or (set qs i []) j [])
serialize_after i j qs h = elim (==_or i j) [
  | inl same ↦
      subst AllSerialize (sym (ap (λ k. get_or (set qs i []) k []) (sym same) ∙ set_empty qs i)) tt
  | inr ne ↦ subst AllSerialize (sym (get_or-set_ne qs i j [] [] ne)) (h j)
]

empty_after :
    (i j : ℕ) (qs : List (List InternetDatagram))
    → EmptyUpTo i qs
    → j < suc i
    → get_or (set qs i []) j [] ≡ []
empty_after i j qs h lt = elim (==_or i j) [
  | inl same ↦ ap (λ k. get_or (set qs i []) k []) (sym same) ∙ set_empty qs i
  | inr ne ↦ get_or-set_ne qs i j [] [] ne ∙ h j (omega (arith, ne))
]

rounds_lem :
    (rounds : ℕ) (table : List (Route ℕ)) (i : ℕ) (is : List AsyncNetworkInterface)
    → i + rounds ≡ length is
    → AllValid is
    → AllInRange (length is) table
    → QueuesSerialize (queues is)
    → EmptyUpTo i (queues is)
    → (is' : List AsyncNetworkInterface) × (route_rounds rounds table i is ≡ some is')
      × AllValid is'
      × (length is' ≡ length is)
      × EmptyUpTo (length is) (queues is')
unfolding route_rounds
rounds_lem zero table i is total v range good empty =
    (is, refl, v, refl, (λ j lt. empty j (omega arith)))
rounds_lem (suc rounds) table i is total v range good empty =
    let there = get_elem?-some is i (omega arith) in
    let a = there.0 in
    let good_here = subst AllSerialize (queue_at is i a there.1) (good i) in
    let drained =
      drain_lem (suc (length a.datagrams_out)) table i is a a.datagrams_out there.1 refl
        (omega arith) v range good_here in
    let is1 = drained.0 in
    let size : length is1 ≡ length is =
      sym (length-queues is1)
      ∙ ap length drained.3
      ∙ length-set (queues is) i []
      ∙ length-queues is in
    let rest =
      rounds_lem rounds table (suc i) is1 (omega (arith, size)) drained.2
        (subst (λ n. AllInRange n table) (sym size) range)
        (λ j.
          subst (λ qs. AllSerialize (get_or qs j [])) (sym drained.3)
            (serialize_after i j (queues is) good))
        (λ j lt. ap (λ qs. get_or qs j []) drained.3 ∙ empty_after i j (queues is) empty lt) in
    (
      rest.0,
      rw (there.1, drained.1) rest.1,
      rest.2,
      rest.3 ∙ size,
      (λ j lt. rest.4 j (omega (arith, size))),
    )

-- If the interfaces are valid, each route of the table leads to one of them and all that is queued can
-- be serialized once its time to live is one less, then `route` returns, the router has as many
-- interfaces as before, all valid, and their queues are empty.
pub route-empty :
    (router : Router)
    → AllValid router.interfaces
    → AllInRange (length router.interfaces) router.routing_table
    → QueuesSerialize (queues router.interfaces)
    → (is : List AsyncNetworkInterface) × (route router ≡ some (record router { interfaces = is }))
      × AllValid is
      × (length is ≡ length router.interfaces)
      × ((j : ℕ) → j < length router.interfaces → get_or (queues is) j [] ≡ [])
unfolding route
route-empty router v range good =
    let r =
      rounds_lem (length router.interfaces) router.routing_table 0 router.interfaces (omega arith) v
        range good (λ j lt. absurd (omega arith)) in
    (r.0, rw r.1 refl, r.2, r.3, r.4)
