-- ===== src/StreamReassembler/Ring.antt =====
-- The circular buffer seen by offsets from the first byte that is not assembled yet.
use csed353_computer_network.Prelude.{
  ℕ, zero, suc, ◌+◌, ◌-◌, ◌%◌, ◌<◌, ◌≤◌, ◌≡◌, ◌⊎◌, inl, inr, refl, ap, ap₂, subst, ◌∙◌, Bool, true,
  false, List, [], ◌∷◌, ◌++◌, arith, if◌then◌else◌, length, get_or, set, drop, take, min,
}
use native.Mathlib.Nat.{mod-eq_of_lt, mod-eq-sub-mod, mod-add-mod}
use native.Mathlib.Decide.{dec_lt}

-- The position of offset `j` in a ring of `m` cells that begins at `sep`.
abbrev pub at : ℕ → ℕ → ℕ → ℕ
at m sep j = (sep + j) % m

pub at-lt : (m sep j : ℕ) → 0 < m → at m sep j < m
at-lt m sep j h = omega arith

pub at_cases :
    (m sep j : ℕ)
    → sep < m
    → j ≤ m
    → ((sep + j < m) × (at m sep j ≡ sep + j)) ⊎ ((m ≤ sep + j) × (at m sep j ≡ sep + j - m))
at_cases m sep j hs hj = elim (dec_lt (sep + j) m) [
  | yes p ↦ inl (p, mod-eq_of_lt p)
  | no p ↦ inr (
    omega arith,
    mod-eq-sub-mod {n = sep + j} {m = m} (omega arith)
        ∙ mod-eq_of_lt {n = sep + j - m} {m = m} (omega arith),
  )
]

-- Distinct offsets have distinct cells.
pub at-injective : (m sep i j : ℕ) → sep < m → i < m → j < m → at m sep i ≡ at m sep j → i ≡ j
at-injective m sep i j hs hi hj e =
    omega (arith, at_cases m sep i hs (omega arith), at_cases m sep j hs (omega arith))

-- The ring from `c` places further on.
pub at_shift : (m sep c j : ℕ) → at m (at m sep c) j ≡ at m sep (c + j)
at_shift m sep c j = mod-add-mod (sep + c) m j ∙ ap (λ t. t % m) (omega arith)

-- Once round is back at the start.
pub at_round : (m sep j : ℕ) → 0 < m → m ≤ j → at m sep j ≡ at m sep (j - m)
at_round m sep j hm h =
    mod-eq-sub-mod {n = sep + j} {m = m} (omega arith) ∙ ap (λ t. t % m) (omega arith)

-- The bytes `s from`, …, `s (from + n - 1)` of a stream `s`.
abbrev pub slice : (ℕ → ℕ) → ℕ → ℕ → List ℕ
slice s from zero = []
slice s from (suc n) = s from ∷ slice s (suc from) n

pub slice-append :
    (s : ℕ → ℕ) (from m n : ℕ) → slice s from m ++ slice s (from + m) n ≡ slice s from (m + n)
slice-append s from zero n = ap₂ (slice s) (omega arith) (omega arith)
slice-append s from (suc m) n =
    let e : from + suc m ≡ suc from + m = omega arith in
    let e' : suc m + n ≡ suc (m + n) = omega arith in
    rw (e, e') (ap (λ t. s from ∷ t) (slice-append s (suc from) m n))

pub slice_snoc :
    (s : ℕ → ℕ) (from n : ℕ) → slice s from n ++ (s (from + n) ∷ []) ≡ slice s from (suc n)
slice_snoc s from n =
    slice-append s from n 1 ∙ ap (slice s from) (let e : n + 1 ≡ suc n = omega arith in e)

pub drop-slice : (s : ℕ → ℕ) (from m n : ℕ) → drop n (slice s from m) ≡ slice s (from + n) (m - n)
drop-slice s from m zero = ap₂ (slice s) (omega arith) (omega arith)
drop-slice s from zero (suc n) =
    ap (slice s (from + suc n)) (let e : 0 ≡ 0 - suc n = omega arith in e)
drop-slice s from (suc m) (suc n) =
    drop-slice s (suc from) m n ∙ ap₂ (slice s) (omega arith) (omega arith)

pub take-slice : (s : ℕ → ℕ) (from m n : ℕ) → take n (slice s from m) ≡ slice s from (min n m)
take-slice s from m zero = ap (slice s from) (let e : 0 ≡ min 0 m = omega arith in e)
take-slice s from zero (suc n) = ap (slice s from) (let e : 0 ≡ min (suc n) 0 = omega arith in e)
take-slice s from (suc m) (suc n) =
    let e : min (suc n) (suc m) ≡ suc (min n m) = omega arith in
    rw e (ap (λ t. s from ∷ t) (take-slice s (suc from) m n))

pub length-slice : (s : ℕ → ℕ) (from n : ℕ) → length (slice s from n) ≡ n
length-slice s from zero = refl
length-slice s from (suc n) = ap suc (length-slice s (suc from) n)

-- The number of occupied cells.
abbrev pub tally : List Bool → ℕ
tally [] = 0
tally (b ∷ bs) = (if b then 1 else 0) + tally bs

pub tally-le : (bs : List Bool) → tally bs ≤ length bs
tally-le [] = omega arith
tally-le (true ∷ bs) = omega (arith, tally-le bs)
tally-le (false ∷ bs) = omega (arith, tally-le bs)

pub tally-set-true :
    (bs : List Bool) (i : ℕ)
    → i < length bs
    → tally (set bs i true) ≡ (if get_or bs i false then tally bs else tally bs + 1)
tally-set-true [] i h = absurd (omega arith)
tally-set-true (true ∷ bs) zero h = refl
tally-set-true (false ∷ bs) zero h = omega arith
tally-set-true (b ∷ bs) (suc i) h = ground (arith, tally-set-true bs i (omega arith))

pub tally-set-false :
    (bs : List Bool) (i : ℕ) → get_or bs i false ≡ true → tally (set bs i false) + 1 ≡ tally bs
tally-set-false [] i h = cc
tally-set-false (true ∷ bs) zero h = omega arith
tally-set-false (false ∷ bs) zero h = cc
tally-set-false (b ∷ bs) (suc i) h = omega (arith, tally-set-false bs i h)

-- Against a stream `s` whose byte `first` is the next one to assemble: an occupied cell at offset
-- `j` lies below `bound`, and holds byte `first + j` of the stream.
abbrev pub Window : (ℕ → ℕ) → ℕ → ℕ → ℕ → ℕ → List ℕ → List Bool → Type 0
Window s m sep first bound buf occ =
    (j : ℕ)
    → j < m
    → get_or occ (at m sep j) false ≡ true
    → (j < bound) × (get_or buf (at m sep j) 0 ≡ s (first + j))

-- The window seen from `c` bytes further on, once the first `c` cells are empty.
pub Window-shift :
    (s : ℕ → ℕ) (m sep first bound c : ℕ) (buf : List ℕ) (occ : List Bool)
    → sep < m
    → c ≤ bound
    → bound ≤ m
    → ((j : ℕ) → j < c → get_or occ (at m sep j) false ≡ false)
    → Window s m sep first bound buf occ
    → Window s m (at m sep c) (first + c) (bound - c) buf occ
Window-shift s m sep first bound c buf occ hs hc hb cleared w j hj occupied =
    elim (dec_lt (c + j) m) [
      | yes p ↦
          let old =
            w (c + j) p (subst (λ k. get_or occ k false ≡ true) (at_shift m sep c j) occupied) in
          (
            omega (arith, old.0),
            ap (λ k. get_or buf k 0) (at_shift m sep c j) ∙ old.1 ∙ ap s (omega arith),
          )
      | no n ↦
          let e = at_shift m sep c j ∙ at_round m sep (c + j) (omega arith) (omega arith) in
          let filled : get_or occ (at m sep (c + j - m)) false ≡ true =
            subst (λ k. get_or occ k false ≡ true) e occupied in
          let emptied = cleared (c + j - m) (omega arith) in cc
    ]
