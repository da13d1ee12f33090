-- ===== src/Router/Forward.antt =====
-- `route_one_datagram` of libsponge/router.cc: where a datagram goes.
use csed353_computer_network.Prelude.{
  ℕ, suc, ◌<◌, ◌≤◌, ◌≡◌, inl, inr, refl, sym, ap, ◌∙◌, subst, true, Option, some, List, [], ◌∷◌,
  ltb, arith, if_elim, get_elem?, set, zero, length, ◌and_then◌,
}
use csed353_computer_network.Ipv4.{InternetDatagram}
use csed353_computer_network.Router.{
  Route, matches, first_match, hop, aged, send_by, send_to, route_one_datagram,
}
use csed353_computer_network.Router.LongestPrefix.{Among, add_routes, first_match_longest}

pub get_elem?-some :
    {A : Type 0} (xs : List A) (n : ℕ) → n < length xs → (x : A) × (get_elem? xs n ≡ some x)
get_elem?-some [] n h = absurd (omega arith)
get_elem?-some (x ∷ xs) zero h = (x, refl)
get_elem?-some (x ∷ xs) (suc n) h = get_elem?-some xs n (omega arith)

module _ {Address Interface : Type 0} (from_ipv4_numeric : ℕ → Address)
    (send_datagram : Interface → InternetDatagram → Address → Option Interface) where
  -- Every route leads to an interface that is there.
  abbrev pub InRange : List Interface → List (Route Address) → Type 0
  InRange interfaces [] = Unit
  InRange interfaces (r ∷ rest) = (r.interface_num < length interfaces) × InRange interfaces rest

  in_range_lem :
      (interfaces : List Interface) (rs : List (Route Address)) (q : Route Address)
      → InRange interfaces rs
      → Among q rs
      → q.interface_num < length interfaces
  in_range_lem interfaces [] q h m = absurd m
  in_range_lem interfaces (r ∷ rest) q h (inl e) =
      subst (λ (p : Route Address). p.interface_num < length interfaces) (sym e) h.0
  in_range_lem interfaces (r ∷ rest) q h (inr m) = in_range_lem interfaces rest q h.1 m

  -- The interfaces once the datagram is sent by the route `r` on `interface`.
  abbrev pub sent :
      List Interface → InternetDatagram → Route Address → Interface → Option (List Interface)
  sent interfaces dgram r interface =
      send_datagram interface (aged dgram)
        (hop from_ipv4_numeric send_datagram r.next_hop dgram.header.dst)
      and_then λ after. some (set interfaces r.interface_num after)

  routed_lem :
      (interfaces : List Interface) (table : List (Route Address)) (dgram : InternetDatagram)
      (r : Route Address) (interface : Interface)
      → 1 < dgram.header.ttl
      → first_match table dgram.header.dst ≡ some r
      → get_elem? interfaces r.interface_num ≡ some interface
      → route_one_datagram from_ipv4_numeric send_datagram table interfaces dgram
        ≡ sent interfaces dgram r interface
  unfolding route_one_datagram
  routed_lem interfaces table dgram r interface ttl found there =
      if_elim (λ o. o ≡ sent interfaces dgram r interface) (ltb 1 dgram.header.ttl)
        (send_by from_ipv4_numeric send_datagram (first_match table dgram.header.dst) interfaces
          dgram)
        (some interfaces)
        (λ e.
          ap (λ o. send_by from_ipv4_numeric send_datagram o interfaces dgram) found
          ∙ ap
              (λ o.
                send_to from_ipv4_numeric send_datagram o interfaces r.interface_num (aged dgram)
                  (hop from_ipv4_numeric send_datagram r.next_hop dgram.header.dst))
              there)
        (λ e. absurd (ground arith))

  -- A datagram with a time to live of more than 1, whose destination is matched by one of the routes
  -- that were added, all to interfaces that are there, is given to one interface to send, once, with the
  -- time to live one less: by a route that matches and whose prefix is at least as long, to its next
  -- hop, or to the destination itself if it has none. The router throws only if that interface does.
  pub route_one_datagram-longest :
      (interfaces : List Interface) (rs : List (Route Address)) (dgram : InternetDatagram)
      (q : Route Address)
      → InRange interfaces rs
      → 1 < dgram.header.ttl
      → Among q rs
      → matches q dgram.header.dst ≡ true
      → (r : Route Address) × (interface : Interface) × Among r rs
        × (matches r dgram.header.dst ≡ true)
        × (q.prefix_length ≤ r.prefix_length)
        × (get_elem? interfaces r.interface_num ≡ some interface)
        × (route_one_datagram from_ipv4_numeric send_datagram (add_routes [] rs) interfaces dgram
            ≡ sent interfaces dgram r interface)
  route_one_datagram-longest interfaces rs dgram q range ttl m h =
      let best = first_match_longest rs dgram.header.dst q m h in
      let there =
        get_elem?-some interfaces best.0.interface_num
          (in_range_lem interfaces rs best.0 range best.2) in
      (
        best.0,
        there.0,
        best.2,
        best.3,
        best.4,
        there.1,
        routed_lem interfaces (add_routes [] rs) dgram best.0 there.0 ttl best.1 there.1,
      )
