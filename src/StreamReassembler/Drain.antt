-- ===== src/StreamReassembler/Drain.antt =====
-- Writing out: the loop of `write_to_output` collects exactly the bytes that are contiguous.
use csed353_computer_network.Prelude.{
  ℕ, zero, suc, ◌+◌, ◌%◌, ◌<◌, ◌≤◌, ◌≡◌, ◌≢◌, inl, inr, refl, ap, ap₂, sym, ◌∙◌, Bool, true, false,
  List, [], ◌∷◌, ◌++◌, arith, Bool-cases, length, get_or, set, get_or-set_self, get_or-set_ne,
  length-set, subst, add64,
}
use native.Mathlib.Decide.{ℕ_discrete}
use csed353_computer_network.StreamReassembler.{
  StreamReassembler, space, clear_byte, collect, next_cell,
}
use csed353_computer_network.StreamReassembler.Ring.{
  at, at-lt, at-injective, Window, slice, slice_snoc, tally, tally-set-false, tally-le, at_round,
}
use csed353_computer_network.StreamReassembler.Store.{Sizes, SameFrame, InWindow, occupied_at}

-- The state of the loop after `count` rounds from `r₀`.
pub record Collected (s : ℕ → ℕ) (bound : ℕ) (r₀ r : StreamReassembler) (count : ℕ)
    (reassembled : List ℕ) : Type 0 where
  pub sizes : Sizes r
  pub frame : SameFrame r₀ r
  pub window : InWindow s bound r
  pub cleared : (j : ℕ) → j < count → occupied_at r j ≡ false
  pub within : count ≤ bound
  pub text : reassembled ≡ slice s r₀.first_unassembled_index count
  pub kept : (j : ℕ) → count ≤ j → j < r.capacity → occupied_at r j ≡ occupied_at r₀ j

Window-clear :
    (s : ℕ → ℕ) (m sep first bound : ℕ) (buf : List ℕ) (occ : List Bool) (c b : ℕ)
    → c < length occ
    → Window s m sep first bound buf occ
    → Window s m sep first bound (set buf c b) (set occ c false)
Window-clear s m sep first bound buf occ c b hc w j hj occupied = elim (ℕ_discrete c (at m sep j)) [
  | yes e ↦
      let no_longer : get_or (set occ c false) (at m sep j) false ≡ false =
        rw (← e) (get_or-set_self occ c false false hc) in
      cc
  | no n ↦
      let old = w j hj (sym (get_or-set_ne occ c _ false false n) ∙ occupied) in
      (old.0, get_or-set_ne buf c _ b 0 n ∙ old.1)
]

clear_byte-Sizes :
    (r : StreamReassembler) (c : ℕ)
    → Sizes r
    → get_or r.occupied c false ≡ true
    → Sizes (clear_byte r c)
unfolding clear_byte
clear_byte-Sizes r c v h = omega (
  arith,
  tally-set-false r.occupied c h,
  tally-le r.occupied,
  length-set r.occupied c false,
  length-set r.unassembled_buffer c space,
)

-- An occupied cell at the loop's counter lies in the window, so the loop never goes round twice.
count-lt :
    {s : ℕ → ℕ} {bound : ℕ} {r₀ r : StreamReassembler} {count : ℕ} {reassembled : List ℕ}
    → bound ≤ r.capacity
    → Collected s bound r₀ r count reassembled
    → occupied_at r count ≡ true
    → count < bound
count-lt {r = r} {count = count} hb c h = elim (ℕ_discrete count r.capacity) [
  | yes e ↦
      let wrapped : at r.capacity r.seperator count ≡ at r.capacity r.seperator 0 =
        at_round r.capacity r.seperator count (omega arith) (omega arith)
        ∙ ap (at r.capacity r.seperator) (omega arith) in
      let first_cell : occupied_at r 0 ≡ true =
        subst (λ k. get_or r.occupied k false ≡ true) wrapped h in
      let emptied : occupied_at r 0 ≡ false = c.cleared 0 (omega arith) in cc
  | no n ↦ (c.window count (omega arith) h).0
]

next_cell-at :
    (r : StreamReassembler) (count : ℕ)
    → Sizes r
    → count ≤ r.capacity
    → next_cell r count ≡ at r.capacity r.seperator count
next_cell-at r count v h = ap (λ t. t % r.capacity) (omega arith)

suc-add64 :
    (r : StreamReassembler) (count : ℕ) → Sizes r → count ≤ r.capacity → add64 count 1 ≡ suc count
suc-add64 r count v h = omega arith

clear_byte-cleared :
    (r : StreamReassembler) (count j : ℕ)
    → Sizes r
    → ((k : ℕ) → k < count → occupied_at r k ≡ false)
    → j < suc count
    → occupied_at (clear_byte r (at r.capacity r.seperator count)) j ≡ false
unfolding clear_byte
clear_byte-cleared r count j v old h =
    elim (ℕ_discrete (at r.capacity r.seperator count) (at r.capacity r.seperator j)) [
      | yes e ↦ rw (← e) (
          get_or-set_self r.occupied _ false false
            (omega (arith, at-lt r.capacity r.seperator count v.positive)))
      | no n ↦
          get_or-set_ne r.occupied _ _ false false n
          ∙ old j
              (let ne : j ≢ count = λ e. n (ap (at r.capacity r.seperator) (sym e)) in omega arith)
    ]

collect_step :
    {s : ℕ → ℕ} {bound : ℕ} {r₀ r : StreamReassembler} {count : ℕ} {reassembled : List ℕ}
    → bound ≤ r.capacity
    → Collected s bound r₀ r count reassembled
    → occupied_at r count ≡ true
    → Collected s bound r₀
        (clear_byte r (at r.capacity r.seperator count))
        (suc count)
        (reassembled ++ (get_or r.unassembled_buffer (at r.capacity r.seperator count) 0 ∷ []))
unfolding clear_byte
collect_step {s} {bound} {r₀} {r} {count} {reassembled} hb c h = record {
  sizes = unfold clear_byte in clear_byte-Sizes r _ c.sizes h;
  frame = record {
    output = c.frame.output;
    capacity = c.frame.capacity;
    seperator = c.frame.seperator;
    first = c.frame.first;
    eof = c.frame.eof;
  };
  window =
      Window-clear s r.capacity r.seperator r.first_unassembled_index bound r.unassembled_buffer
        r.occupied (at r.capacity r.seperator count) space
        (omega (arith, at-lt r.capacity r.seperator count c.sizes.positive)) c.window;
  cleared = λ j hj. clear_byte-cleared r count j c.sizes c.cleared hj;
  within = count-lt hb c h;
  text =
      ap₂ (λ xs b. xs ++ (b ∷ [])) c.text
        ((c.window count (omega (arith, count-lt hb c h)) h).1
          ∙ ap (λ f. s (f + count)) c.frame.first)
      ∙ slice_snoc s r₀.first_unassembled_index count;
  kept = λ j hj hm.
      get_or-set_ne r.occupied _ _ false false (λ e. absurd (
        let e' : count ≡ j =
          at-injective r.capacity r.seperator count j c.sizes.inside
            (omega (arith, count-lt hb c h)) hm e in
        omega arith))
      ∙ c.kept j (omega arith) hm;
}

-- The loop is over: what it collected is in step with the stream, and the next cell is empty.
abbrev pub Ended : (ℕ → ℕ) → ℕ → StreamReassembler → StreamReassembler × ℕ × List ℕ → Type 0
Ended s bound r₀ (r, count, reassembled) =
    Collected s bound r₀ r count reassembled × (occupied_at r count ≡ false)

-- One more round, at a counter that has not wrapped.
collect_more :
    (fuel : ℕ) (r : StreamReassembler) (count : ℕ) (reassembled : List ℕ)
    → Sizes r
    → count ≤ r.capacity
    → occupied_at r count ≡ true
    → collect (suc fuel) r count reassembled
      ≡ collect fuel
          (clear_byte r (at r.capacity r.seperator count))
          (suc count)
          (reassembled ++ (get_or r.unassembled_buffer (at r.capacity r.seperator count) 0 ∷ []))
unfolding collect
collect_more fuel r count reassembled v h e =
    let e' : get_or r.occupied (next_cell r count) false ≡ true = rw (next_cell-at r count v h) e in
    rw (e', collect)
      (ap₂
        (λ c k.
          collect fuel (clear_byte r c) k (reassembled ++ (get_or r.unassembled_buffer c 0 ∷ [])))
        (next_cell-at r count v h) (suc-add64 r count v h))

pub collect_stop :
    (fuel : ℕ) (r : StreamReassembler) (count : ℕ) (reassembled : List ℕ)
    → Sizes r
    → count ≤ r.capacity
    → occupied_at r count ≡ false
    → collect (suc fuel) r count reassembled ≡ (r, count, reassembled)
unfolding collect
collect_stop fuel r count reassembled v h e =
    let e' : get_or r.occupied (next_cell r count) false ≡ false =
      rw (next_cell-at r count v h) e in
    rw (e', collect)

clear_byte-tally :
    (r : StreamReassembler) (c fuel : ℕ)
    → get_or r.occupied c false ≡ true
    → tally r.occupied < suc fuel
    → tally (clear_byte r c).occupied < fuel
unfolding clear_byte
clear_byte-tally r c fuel h hf = omega (arith, tally-set-false r.occupied c h)

clear_byte-capacity : (r : StreamReassembler) (c : ℕ) → (clear_byte r c).capacity ≡ r.capacity
unfolding clear_byte
clear_byte-capacity r c = refl

-- With more fuel than occupied cells the loop ends by its own test.
pub collect-Ended :
    (s : ℕ → ℕ) (bound : ℕ) (r₀ : StreamReassembler) (fuel : ℕ) (r : StreamReassembler) (count : ℕ)
    (reassembled : List ℕ)
    → bound ≤ r.capacity
    → tally r.occupied < fuel
    → Collected s bound r₀ r count reassembled
    → Ended s bound r₀ (collect fuel r count reassembled)
collect-Ended s bound r₀ zero r count reassembled hb hf c = elim hf [ ]
collect-Ended s bound r₀ (suc fuel) r count reassembled hb hf c =
    elim (Bool-cases (occupied_at r count)) [
      | inl e ↦
          subst (Ended s bound r₀)
            (sym (collect_more fuel r count reassembled c.sizes (omega (arith, c.within)) e))
            (collect-Ended s bound r₀ fuel (clear_byte r (at r.capacity r.seperator count))
              (suc count)
              (reassembled
                ++ (get_or r.unassembled_buffer (at r.capacity r.seperator count) 0 ∷ []))
              (omega (arith, clear_byte-capacity r (at r.capacity r.seperator count)))
              (clear_byte-tally r (at r.capacity r.seperator count) fuel e hf)
              (collect_step hb c e))
      | inr e ↦
          subst (Ended s bound r₀)
            (sym (collect_stop fuel r count reassembled c.sizes (omega (arith, c.within)) e)) (c, e)
    ]
