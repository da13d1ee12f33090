-- ===== src/StreamReassembler/Fill.antt =====
-- The loop of `store_data` marks the cells of the whole excerpt as occupied.
use csed353_computer_network.Prelude.{
  ℕ, zero, suc, ◌+◌, ◌-◌, ◌<◌, ◌≤◌, ◌≡◌, ◌⊎◌, inl, inr, ◌∙◌, true, false, List, arith, length,
  get_or, get_or-set_self, get_or-set_ne, set_out, subst,
}
use native.Mathlib.Decide.{ℕ_discrete, dec_lt}
use csed353_computer_network.StreamReassembler.{StreamReassembler, store_byte, store_from, cell}
use csed353_computer_network.StreamReassembler.Ring.{at, at-lt}
use csed353_computer_network.StreamReassembler.Store.{
  Sizes, Fits, occupied_at, cell-at, store_byte-Sizes, store_byte-Fits,
}

-- A cell that is occupied stays so, and so do the others outside the excerpt's cells.
store_byte-occupied :
    (r : StreamReassembler) (c b j : ℕ)
    → occupied_at r j ≡ true
    → occupied_at (store_byte r c b) j ≡ true
unfolding store_byte
store_byte-occupied r c b j h = elim (ℕ_discrete c (at r.capacity r.seperator j)) [
  | yes e ↦ elim (dec_lt c (length r.occupied)) [
    | yes p ↦ rw (← e) (get_or-set_self r.occupied c true false p)
    | no p ↦ rw (set_out r.occupied c true (omega arith)) h
  ]
  | no n ↦ get_or-set_ne r.occupied c _ true false n ∙ h
]

store_byte-fills :
    (r : StreamReassembler) (b o : ℕ)
    → Sizes r
    → o < r.capacity
    → occupied_at (store_byte r (at r.capacity r.seperator o) b) o ≡ true
unfolding store_byte
store_byte-fills r b o v h =
    get_or-set_self r.occupied _ true false
      (omega (arith, at-lt r.capacity r.seperator o, v.positive))

fill_step :
    (r : StreamReassembler) (b : ℕ) (xs : List ℕ) (index i rounds bound j : ℕ)
    → Sizes r
    → Fits r xs index i (suc rounds) bound
    → (occupied_at r j ≡ true)
      ⊎ ((index + i ≤ r.first_unassembled_index + j)
          × (r.first_unassembled_index + j < index + i + suc rounds))
    → (occupied_at (store_byte r (cell r index i) b) j ≡ true)
      ⊎ ((index + (i + 1) ≤ (store_byte r (cell r index i) b).first_unassembled_index + j)
          × ((store_byte r (cell r index i) b).first_unassembled_index + j
              < index + (i + 1) + rounds))
fill_step r b xs index i rounds bound j v f (inl h) =
    inl (store_byte-occupied r (cell r index i) b j h)
fill_step r b xs index i rounds bound j v f (inr h) =
    elim (ℕ_discrete (r.first_unassembled_index + j) (index + i)) [
      | yes e ↦ inl (
          rw (cell-at r index i v (omega arith) (omega arith)) (
            subst (λ o. occupied_at (store_byte r (at r.capacity r.seperator o) b) j ≡ true)
              (let e' : j ≡ index + i - r.first_unassembled_index = omega arith in e')
              (store_byte-fills r b j v (omega arith))))
      | no n ↦ inr (unfold store_byte in (omega arith, omega arith))
    ]

-- The loop fills the cell of every byte that it goes over.
pub store_from-fills :
    (rounds : ℕ) (r : StreamReassembler) (xs : List ℕ) (index i bound j : ℕ)
    → Sizes r
    → Fits r xs index i rounds bound
    → (occupied_at r j ≡ true)
      ⊎ ((index + i ≤ r.first_unassembled_index + j)
          × (r.first_unassembled_index + j < index + i + rounds))
    → occupied_at (store_from rounds r xs index i) j ≡ true
unfolding store_from
store_from-fills zero r xs index i bound j v f (inl h) = h
store_from-fills zero r xs index i bound j v f (inr h) = absurd (omega arith)
store_from-fills (suc rounds) r xs index i bound j v f h =
    store_from-fills rounds (store_byte r (cell r index i) (get_or xs i 0)) xs index (i + 1) bound j
      (store_byte-Sizes r (cell r index i) (get_or xs i 0) v (omega (arith, v.positive)))
      (store_byte-Fits r (cell r index i) (get_or xs i 0) xs index i rounds bound f)
      (fill_step r (get_or xs i 0) xs index i rounds bound j v f h)
