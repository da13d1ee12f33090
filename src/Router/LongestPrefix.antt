-- ===== src/Router/LongestPrefix.antt =====
-- The routing table of libsponge/router.cc is sorted, so that the first route that matches is one
-- with the longest prefix.
use csed353_computer_network.Prelude.{
  ℕ, ◌≤◌, ◌≡◌, ◌⊎◌, inl, inr, refl, sym, ap, ◌∙◌, subst, true, false, some, List, [], ◌∷◌, ltb,
  arith, if_elim, ltb→lt, ltb→le, Bool-cases,
}
use csed353_computer_network.Router.{Route, matches, add_route, first_match}

module _ {Address : Type 0} where
  abbrev pub Among : Route Address → List (Route Address) → Type 0
  Among q [] = ⊥
  Among q (r ∷ rest) = (q ≡ r) ⊎ Among q rest

  -- The table after routes were added to it one by one.
  abbrev pub add_routes : List (Route Address) → List (Route Address) → List (Route Address)
  add_routes table [] = table
  add_routes table (r ∷ rest) = add_routes (add_route table r) rest

  -- No prefix of the list is longer than `n`.
  abbrev pub Bounded : ℕ → List (Route Address) → Type 0
  Bounded n [] = Unit
  Bounded n (r ∷ rest) = (r.prefix_length ≤ n) × Bounded n rest

  abbrev pub Sorted : List (Route Address) → Type 0
  Sorted [] = Unit
  Sorted (r ∷ rest) = Bounded r.prefix_length rest × Sorted rest

  Bounded-trans :
      (m n : ℕ) (table : List (Route Address)) → m ≤ n → Bounded m table → Bounded n table
  Bounded-trans m n [] h b = tt
  Bounded-trans m n (r ∷ rest) h b = (omega (arith, b.0), Bounded-trans m n rest h b.1)

  Bounded-Among :
      (n : ℕ) (table : List (Route Address)) (q : Route Address)
      → Bounded n table
      → Among q table
      → q.prefix_length ≤ n
  Bounded-Among n [] q b m = absurd m
  Bounded-Among n (r ∷ rest) q b (inl e) =
      subst (λ (p : Route Address). p.prefix_length ≤ n) (sym e) b.0
  Bounded-Among n (r ∷ rest) q b (inr m) = Bounded-Among n rest q b.1 m

  add_route-Bounded :
      (n : ℕ) (table : List (Route Address)) (new_route : Route Address)
      → Bounded n table
      → new_route.prefix_length ≤ n
      → Bounded n (add_route table new_route)
  unfolding add_route
  add_route-Bounded n [] new_route b h = (h, tt)
  add_route-Bounded n (r ∷ rest) new_route b h =
      if_elim (Bounded n) (ltb r.prefix_length new_route.prefix_length) _
        (r ∷ add_route rest new_route) (λ e. (h, b))
        (λ e. (b.0, add_route-Bounded n rest new_route b.1 h))

  -- `add_route` keeps the table sorted by the length of the prefix, the longest first.
  pub add_route-Sorted :
      (table : List (Route Address)) (new_route : Route Address)
      → Sorted table
      → Sorted (add_route table new_route)
  unfolding add_route
  add_route-Sorted [] new_route s = (tt, tt)
  add_route-Sorted (r ∷ rest) new_route s =
      if_elim Sorted (ltb r.prefix_length new_route.prefix_length) (new_route ∷ r ∷ rest)
        (r ∷ add_route rest new_route)
        (λ e.
          let longer = ltb→lt r.prefix_length new_route.prefix_length e in
          (
            (
              omega arith,
              Bounded-trans r.prefix_length new_route.prefix_length rest (omega arith) s.0,
            ),
            s,
          ))
        (λ e. (
          add_route-Bounded r.prefix_length rest new_route s.0
              (ltb→le r.prefix_length new_route.prefix_length e),
          add_route-Sorted rest new_route s.1,
        ))

  add_route-new :
      (table : List (Route Address)) (new_route : Route Address)
      → Among new_route (add_route table new_route)
  unfolding add_route
  add_route-new [] new_route = inl refl
  add_route-new (r ∷ rest) new_route =
      if_elim (Among new_route) (ltb r.prefix_length new_route.prefix_length) _
        (r ∷ add_route rest new_route) (λ e. inl refl) (λ e. inr (add_route-new rest new_route))

  add_route-old :
      (table : List (Route Address)) (new_route q : Route Address)
      → Among q table
      → Among q (add_route table new_route)
  unfolding add_route
  add_route-old [] new_route q m = absurd m
  add_route-old (r ∷ rest) new_route q m =
      if_elim (Among q) (ltb r.prefix_length new_route.prefix_length) _
        (r ∷ add_route rest new_route) (λ e. inr m)
        (λ e. elim m [ inl e' ↦ inl e' | inr m' ↦ inr (add_route-old rest new_route q m') ])

  add_route-only :
      (table : List (Route Address)) (new_route q : Route Address)
      → Among q (add_route table new_route)
      → (q ≡ new_route) ⊎ Among q table
  unfolding add_route
  add_route-only [] new_route q m = m
  add_route-only (r ∷ rest) new_route q among =
      if_elim (λ t. Among q t → (q ≡ new_route) ⊎ Among q (r ∷ rest))
        (ltb r.prefix_length new_route.prefix_length) (new_route ∷ r ∷ rest)
        (r ∷ add_route rest new_route) (λ e m. m)
        (λ e m. elim m [
          | inl e' ↦ inr (inl e')
          | inr m' ↦ elim (add_route-only rest new_route q m') [
            | inl e' ↦ inl e'
            | inr m'' ↦ inr (inr m'')
          ]
        ])
        among

  -- The longest match in a sorted table.
  Best : List (Route Address) → ℕ → Route Address → Type 0
  Best table dst q =
      (r : Route Address) × (first_match table dst ≡ some r)
      × Among r table
      × (matches r dst ≡ true)
      × (q.prefix_length ≤ r.prefix_length)

  Sorted-Best :
      (table : List (Route Address)) (dst : ℕ) (q : Route Address)
      → Sorted table
      → Among q table
      → matches q dst ≡ true
      → Best table dst q
  unfolding first_match Best
  Sorted-Best [] dst q s m h = absurd m
  Sorted-Best (r ∷ rest) dst q s m h = elim (Bool-cases (matches r dst)) [
    | inl e ↦ (
      r,
      rw e refl,
      inl refl,
      e,
      elim m [
        | inl same ↦
            subst (λ (p : Route Address). p.prefix_length ≤ r.prefix_length) (sym same)
              (omega arith)
        | inr below ↦ Bounded-Among r.prefix_length rest q s.0 below
      ],
    )
    | inr e ↦ elim m [
      | inl same ↦
          absurd (let f : true ≡ false = sym h ∙ ap (λ p. matches p dst) same ∙ e in ground arith)
      | inr below ↦
          let b = Sorted-Best rest dst q s.1 below h in (b.0, rw e (b.1), inr b.2, b.3, b.4)
    ]
  ]

  routes-Sorted : (table rs : List (Route Address)) → Sorted table → Sorted (add_routes table rs)
  routes-Sorted table [] s = s
  routes-Sorted table (r ∷ rs) s = routes-Sorted (add_route table r) rs (add_route-Sorted table r s)

  routes-old :
      (table rs : List (Route Address)) (q : Route Address)
      → Among q table
      → Among q (add_routes table rs)
  routes-old table [] q m = m
  routes-old table (r ∷ rs) q m = routes-old (add_route table r) rs q (add_route-old table r q m)

  routes-new :
      (table rs : List (Route Address)) (q : Route Address)
      → Among q rs
      → Among q (add_routes table rs)
  routes-new table [] q m = absurd m
  routes-new table (r ∷ rs) q (inl e) =
      routes-old (add_route table r) rs q
        (subst (λ p. Among p (add_route table r)) (sym e) (add_route-new table r))
  routes-new table (r ∷ rs) q (inr m) = routes-new (add_route table r) rs q m

  routes-only :
      (table rs : List (Route Address)) (q : Route Address)
      → Among q (add_routes table rs)
      → Among q table ⊎ Among q rs
  routes-only table [] q m = inl m
  routes-only table (r ∷ rs) q m = elim (routes-only (add_route table r) rs q m) [
    | inl m' ↦ elim (add_route-only table r q m') [ inl e ↦ inr (inl e) | inr m'' ↦ inl m'' ]
    | inr m' ↦ inr (inr m')
  ]

  -- In whatever order routes were added to an empty table: if one of them matches a destination, then
  -- the router finds a route, one of those added, which matches and has a prefix that is at least as
  -- long.
  pub first_match_longest :
      (rs : List (Route Address)) (dst : ℕ) (q : Route Address)
      → Among q rs
      → matches q dst ≡ true
      → (r : Route Address) × (first_match (add_routes [] rs) dst ≡ some r)
        × Among r rs
        × (matches r dst ≡ true)
        × (q.prefix_length ≤ r.prefix_length)
  unfolding Best
  first_match_longest rs dst q m h =
      let b =
        Sorted-Best (add_routes [] rs) dst q (routes-Sorted [] rs tt) (routes-new [] rs q m) h in
      (
        b.0,
        b.1,
        elim (routes-only [] rs b.0 b.2) [ inl none_there ↦ absurd none_there | inr m' ↦ m' ],
        b.3,
        b.4,
      )
