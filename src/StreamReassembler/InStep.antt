-- ===== src/StreamReassembler/InStep.antt =====
-- The reassembler in step with the stream whose excerpts it is given, and `store_data`.
use csed353_computer_network.Prelude.{
  ℕ, ◌+◌, ◌-◌, ◌^◌, ◌<◌, ◌≤◌, ◌≡◌, min, ap, ap₂, sym, ◌∙◌, List, arith, length, subst,
}
use csed353_computer_network.ByteStream.{ByteStream}
use csed353_computer_network.ByteStream.Accounting.{IsValid}
use csed353_computer_network.StreamReassembler.{
  StreamReassembler, store_from, store_data, begin, bytes_can_be_stored,
}
use csed353_computer_network.StreamReassembler.Ring.{slice}
use csed353_computer_network.StreamReassembler.Store.{
  Sizes, SameFrame, InWindow, Fits, Excerpt, store_from-Sizes, store_from-SameFrame,
  store_from-InWindow,
}

-- The room that is left beside the bytes that the reader has not taken yet.
abbrev pub room : StreamReassembler → ℕ
room r = r.capacity - length r.output.buffer

-- The reassembler is in step with the stream `s`: what it has written so far is the first
-- `first_unassembled_index` bytes, and what it holds back are bytes of the stream at their places.
pub record InStep (s : ℕ → ℕ) (r : StreamReassembler) : Type 0 where
  pub sizes : Sizes r
  pub output_valid : IsValid r.output
  pub same_capacity : r.output.total_capacity ≡ r.capacity
  pub written : r.output.total_written_bytes ≡ r.first_unassembled_index
  pub held : length r.output.buffer ≤ r.first_unassembled_index
  pub buffered :
      r.output.buffer
      ≡ slice s (r.first_unassembled_index - length r.output.buffer) (length r.output.buffer)
  pub window : InWindow s (room r) r

-- An excerpt that begins inside the window, with numbers that do not wrap.
pub record Admissible (r : StreamReassembler) (xs : List ℕ) (index : ℕ) : Type 0 where
  pub in_reach : index ≤ r.first_unassembled_index + room r
  pub small_index : index + length xs < 2 ^ 63
  pub small_first : r.first_unassembled_index + r.capacity + r.capacity < 2 ^ 63

-- How many bytes such an excerpt is said to store: those that lie below the end of the window.
pub stored_lem :
    {s : ℕ → ℕ} (r : StreamReassembler) (xs : List ℕ) (index : ℕ)
    → InStep s r
    → Admissible r xs index
    → bytes_can_be_stored r xs index ≡ min (length xs) (r.first_unassembled_index + room r - index)
stored_lem r xs index v a = omega (arith, v.sizes.small, v.output_valid.within, v.same_capacity)

-- A state with the same output and position, whose cells agree with the stream, is in step too.
pub frame-InStep :
    (s : ℕ → ℕ) (r r' : StreamReassembler)
    → InStep s r
    → SameFrame r r'
    → Sizes r'
    → InWindow s (room r) r'
    → InStep s r'
frame-InStep s r r' v f sizes w = record {
  sizes = sizes;
  output_valid = subst IsValid (sym f.output) v.output_valid;
  same_capacity = ap (λ o. o.total_capacity) f.output ∙ v.same_capacity ∙ sym f.capacity;
  written = ap (λ o. o.total_written_bytes) f.output ∙ v.written ∙ sym f.first;
  held = omega (arith, ap (λ o. length o.buffer) f.output, v.held, f.first);
  buffered =
      ap (λ o. o.buffer) f.output
      ∙ v.buffered
      ∙ ap₂ (λ o first. slice s (first - length o.buffer) (length o.buffer)) (sym f.output)
          (sym f.first);
  window =
      subst (λ b. InWindow s b r')
        (ap₂ (λ (m : ℕ) (o : ByteStream). m - length o.buffer) (sym f.capacity) (sym f.output)) w;
}

pub store_Fits :
    {s : ℕ → ℕ} (r : StreamReassembler) (xs : List ℕ) (index : ℕ)
    → InStep s r
    → Admissible r xs index
    → Fits r xs index (begin r index) (bytes_can_be_stored r xs index - begin r index) (room r)
store_Fits r xs index v a = ground (arith, stored_lem r xs index v a)

pub store_data-InStep :
    (s : ℕ → ℕ) (r : StreamReassembler) (xs : List ℕ) (index : ℕ)
    → InStep s r
    → Admissible r xs index
    → Excerpt s xs index
    → InStep s (store_data r xs index).0
unfolding store_data
store_data-InStep s r xs index v a ex =
    let rounds = bytes_can_be_stored r xs index - begin r index in
    frame-InStep s r (store_from rounds r xs index (begin r index)) v
      (store_from-SameFrame rounds r xs index (begin r index))
      (store_from-Sizes rounds r xs index (begin r index) v.sizes)
      (store_from-InWindow s (room r) rounds r xs index (begin r index) v.sizes
        (store_Fits r xs index v a) ex v.window)
