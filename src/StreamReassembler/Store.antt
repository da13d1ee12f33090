-- ===== src/StreamReassembler/Store.antt =====
-- Storing an excerpt: the loop of `store_data` keeps the circular buffer in step with the stream.
use csed353_computer_network.Prelude.{
  ℕ, zero, suc, ◌+◌, ◌-◌, ◌%◌, ◌^◌, ◌<◌, ◌≤◌, ◌≡◌, ◌≢◌, refl, ap, sym, ◌∙◌, Bool, true, false, List,
  arith, length, get_or, set, get_or-set_self, get_or-set_ne, length-set, subst,
}
use native.Mathlib.Decide.{ℕ_discrete}
use csed353_computer_network.StreamReassembler.{StreamReassembler, store_byte, store_from, cell}
use csed353_computer_network.StreamReassembler.Ring.{
  at, at-lt, at-injective, Window, tally, tally-set-true, tally-le,
}

-- Writing the stream's byte at offset `o` keeps the window.
pub Window-set :
    (s : ℕ → ℕ) (m sep first bound : ℕ) (buf : List ℕ) (occ : List Bool) (o b : ℕ)
    → sep < m
    → o < m
    → o < bound
    → length buf ≡ m
    → length occ ≡ m
    → b ≡ s (first + o)
    → Window s m sep first bound buf occ
    → Window s m sep first bound (set buf (at m sep o) b) (set occ (at m sep o) true)
Window-set s m sep first bound buf occ o b hs ho hb lb lo eb w j hj occupied =
    elim (ℕ_discrete o j) [
      | yes e ↦ (
        omega arith,
        subst (λ k. get_or (set buf (at m sep o) b) (at m sep k) 0 ≡ s (first + k)) e
            (get_or-set_self buf (at m sep o) b 0 (omega (arith, at-lt m sep o)) ∙ eb),
      )
      | no n ↦
          let apart : at m sep o ≢ at m sep j = λ e. n (at-injective m sep o j hs ho hj e) in
          let old = w j hj (sym (get_or-set_ne occ _ _ true false apart) ∙ occupied) in
          (old.0, get_or-set_ne buf _ _ b 0 apart ∙ old.1)
    ]

-- The figures that hold of every state of the reassembler.
pub record Sizes (r : StreamReassembler) : Type 0 where
  pub positive : 0 < r.capacity
  pub buffer_size : length r.unassembled_buffer ≡ r.capacity
  pub occupied_size : length r.occupied ≡ r.capacity
  pub inside : r.seperator < r.capacity
  pub counted : r.unassembled_bytes ≡ tally r.occupied
  pub small : r.first_unassembled_index + r.capacity < 2 ^ 63

-- What is left alone by the store loop.
pub record SameFrame (r r' : StreamReassembler) : Type 0 where
  pub output : r'.output ≡ r.output
  pub capacity : r'.capacity ≡ r.capacity
  pub seperator : r'.seperator ≡ r.seperator
  pub first : r'.first_unassembled_index ≡ r.first_unassembled_index
  pub eof : r'.is_eof_data_received ≡ r.is_eof_data_received

abbrev pub InWindow : (ℕ → ℕ) → ℕ → StreamReassembler → Type 0
InWindow s bound r =
    Window s r.capacity r.seperator r.first_unassembled_index bound r.unassembled_buffer r.occupied

-- The cell of byte `index + i` lies at its offset from the first unassembled byte.
pub cell-at :
    (r : StreamReassembler) (index i : ℕ)
    → Sizes r
    → index + i < 2 ^ 63
    → r.first_unassembled_index ≤ index + i
    → cell r index i ≡ at r.capacity r.seperator (index + i - r.first_unassembled_index)
cell-at r index i v h g = ap (λ t. t % r.capacity) (omega arith)

pub store_byte-Sizes :
    (r : StreamReassembler) (c b : ℕ) → Sizes r → c < r.capacity → Sizes (store_byte r c b)
unfolding store_byte
store_byte-Sizes r c b v h = ground (
  arith,
  tally-set-true r.occupied c,
  tally-le r.occupied,
  length-set r.occupied c true,
  length-set r.unassembled_buffer c b,
  tally-le (set r.occupied c true),
)

abbrev pub occupied_at : StreamReassembler → ℕ → Bool
occupied_at r j = get_or r.occupied (at r.capacity r.seperator j) false

-- The excerpt `xs` that begins at `index` is part of the stream.
abbrev pub Excerpt : (ℕ → ℕ) → List ℕ → ℕ → Type 0
Excerpt s xs index = (k : ℕ) → k < length xs → get_or xs k 0 ≡ s (index + k)

-- The bytes from `index + i` to `index + i + rounds` lie in the window and in the excerpt.
pub record Fits (r : StreamReassembler) (xs : List ℕ) (index i rounds bound : ℕ) : Type 0 where
  pub after : r.first_unassembled_index ≤ index + i
  pub below : index + i + rounds ≤ r.first_unassembled_index + bound
  pub in_ring : bound ≤ r.capacity
  pub in_data : rounds ≤ length xs - i

store_byte-InWindow :
    (s : ℕ → ℕ) (bound : ℕ) (r : StreamReassembler) (xs : List ℕ) (index i rounds : ℕ)
    → Sizes r
    → Fits r xs index i (suc rounds) bound
    → Excerpt s xs index
    → InWindow s bound r
    → InWindow s bound (store_byte r (cell r index i) (get_or xs i 0))
unfolding store_byte
store_byte-InWindow s bound r xs index i rounds v f ex w =
    rw (cell-at r index i v (omega arith) (omega arith)) (
      Window-set s r.capacity r.seperator r.first_unassembled_index bound r.unassembled_buffer
        r.occupied (index + i - r.first_unassembled_index) (get_or xs i 0) v.inside (omega arith)
        (omega arith) v.buffer_size v.occupied_size (ex i (omega arith) ∙ ap s (omega arith)) w)

pub store_from-Sizes :
    (rounds : ℕ) (r : StreamReassembler) (xs : List ℕ) (index i : ℕ)
    → Sizes r
    → Sizes (store_from rounds r xs index i)
unfolding store_from
store_from-Sizes zero r xs index i v = v
store_from-Sizes (suc rounds) r xs index i v =
    store_from-Sizes rounds _ xs index (i + 1)
      (store_byte-Sizes r (cell r index i) (get_or xs i 0) v (omega (arith, v.positive)))

pub store_from-SameFrame :
    (rounds : ℕ) (r : StreamReassembler) (xs : List ℕ) (index i : ℕ)
    → SameFrame r (store_from rounds r xs index i)
unfolding store_from store_byte
store_from-SameFrame zero r xs index i = record {
  output = refl;
  capacity = refl;
  seperator = refl;
  first = refl;
  eof = refl;
}
store_from-SameFrame (suc rounds) r xs index i =
    let ih =
      store_from-SameFrame rounds (store_byte r (cell r index i) (get_or xs i 0)) xs index
        (i + 1) in
    record {
      output = ih.output;
      capacity = ih.capacity;
      seperator = ih.seperator;
      first = ih.first;
      eof = ih.eof;
    }

pub store_byte-Fits :
    (r : StreamReassembler) (c b : ℕ) (xs : List ℕ) (index i rounds bound : ℕ)
    → Fits r xs index i (suc rounds) bound
    → Fits (store_byte r c b) xs index (i + 1) rounds bound
unfolding store_byte
store_byte-Fits r c b xs index i rounds bound f = omega arith

pub store_from-InWindow :
    (s : ℕ → ℕ) (bound : ℕ) (rounds : ℕ) (r : StreamReassembler) (xs : List ℕ) (index i : ℕ)
    → Sizes r
    → Fits r xs index i rounds bound
    → Excerpt s xs index
    → InWindow s bound r
    → InWindow s bound (store_from rounds r xs index i)
unfolding store_from
store_from-InWindow s bound zero r xs index i v f ex w = w
store_from-InWindow s bound (suc rounds) r xs index i v f ex w =
    store_from-InWindow s bound rounds _ xs index (i + 1)
      (store_byte-Sizes r (cell r index i) (get_or xs i 0) v (omega (arith, v.positive)))
      (store_byte-Fits r (cell r index i) (get_or xs i 0) xs index i rounds bound f) ex
      (store_byte-InWindow s bound r xs index i rounds v f ex w)
