-- ===== src/StreamReassembler/Progress.antt =====
-- `push_substring` holds nothing back: every contiguous byte is written out at once.
use csed353_computer_network.Prelude.{
  ℕ, suc, ◌+◌, ◌-◌, ◌%◌, ◌^◌, ◌<◌, ◌≤◌, ◌≡◌, inl, inr, min, refl, ap, sym, ◌∙◌, Bool, true, false,
  List, [], arith, Bool-cases, length, add64, ◌==◌, ◌&&◌, ◌||◌, get_or,
}
use native.Mathlib.Decide.{dec_lt}
use csed353_computer_network.ByteStream.{ByteStream}
use csed353_computer_network.StreamReassembler.{
  StreamReassembler, collect, advance, write_to_output, store_data, begin, bytes_can_be_stored,
  push_substring, end_if_complete,
}
use csed353_computer_network.StreamReassembler.Ring.{at, at_shift}
use csed353_computer_network.StreamReassembler.Store.{Sizes, Excerpt, occupied_at}
use csed353_computer_network.StreamReassembler.Fill.{store_from-fills}
use csed353_computer_network.StreamReassembler.InStep.{
  room, InStep, Admissible, store_data-InStep, stored_lem, store_Fits,
}
use csed353_computer_network.StreamReassembler.Advance.{drained}
use csed353_computer_network.StreamReassembler.Push.{
  assembled, push_substring_lem, store_data-frame, flag-InStep,
}

advance-occupied :
    (r : StreamReassembler) (count : ℕ) (out : List ℕ)
    → Sizes r
    → count ≤ r.capacity
    → occupied_at (advance r count out) 0 ≡ occupied_at r count
unfolding advance
advance-occupied r count out v h =
    let e' : add64 r.seperator count % r.capacity ≡ at r.capacity r.seperator count =
      ap (λ t. t % r.capacity) (omega arith) in
    rw e' (
      ap (λ k. get_or r.occupied k false)
        (at_shift r.capacity r.seperator count 0
          ∙ ap (at r.capacity r.seperator) (let e : count + 0 ≡ count = omega arith in e)))

-- After writing out, the cell of the next byte is empty.
write_to_output-maximal :
    (s : ℕ → ℕ) (r : StreamReassembler) → InStep s r → occupied_at (write_to_output r) 0 ≡ false
unfolding write_to_output
write_to_output-maximal s r v =
    let out = collect (suc (length r.occupied)) r 0 [] in
    let d = drained s r v in
    advance-occupied out.0 out.1 out.2 d.0.sizes (omega (arith, d.0.within, d.0.frame.capacity))
    ∙ d.1

-- Writing out passes over every leading run of occupied cells.
write_to_output-covers :
    (s : ℕ → ℕ) (r : StreamReassembler) (n : ℕ)
    → InStep s r
    → r.first_unassembled_index + r.capacity + r.capacity < 2 ^ 63
    → n ≤ room r
    → ((j : ℕ) → j < n → occupied_at r j ≡ true)
    → r.first_unassembled_index + n ≤ (write_to_output r).first_unassembled_index
unfolding write_to_output
write_to_output-covers s r n v small hn full =
    let out = collect (suc (length r.occupied)) r 0 [] in
    let d = drained s r v in
    let e : (advance out.0 out.1 out.2).first_unassembled_index
        ≡ r.first_unassembled_index + out.1 =
      unfold advance in omega (arith, d.0.within, d.0.frame.first) in
    elim (dec_lt out.1 n) [
      | yes p ↦
          let before : occupied_at r out.1 ≡ true = full out.1 p in
          let after : occupied_at r out.1 ≡ false =
            sym (d.0.kept out.1 (omega arith) (omega (arith, d.0.frame.capacity))) ∙ d.1 in
          cc
      | no q ↦ omega arith
    ]

end_if_complete-same :
    (r : StreamReassembler)
    → ((end_if_complete r).first_unassembled_index ≡ r.first_unassembled_index)
      × (occupied_at (end_if_complete r) 0 ≡ occupied_at r 0)
end_if_complete-same r = elim (Bool-cases (r.is_eof_data_received && (r.unassembled_bytes == 0))) [
  | inl e ↦ rw e (refl, refl)
  | inr e ↦ rw e (refl, refl)
]

module _ (s : ℕ → ℕ) (r : StreamReassembler) (xs : List ℕ) (index : ℕ) (eof : Bool) (v : InStep s r)
    (a : Admissible r xs index) (ex : Excerpt s xs index) where
  flagged : StreamReassembler
  flagged = record (store_data r xs index).0 {
    is_eof_data_received =
        (store_data r xs index).0.is_eof_data_received
        || (eof && ((store_data r xs index).1 == length xs));
  }

  flagged-InStep : InStep s flagged
  unfolding flagged
  flagged-InStep = flag-InStep s (store_data r xs index).0 _ (store_data-InStep s r xs index v a ex)

  -- When an excerpt of the stream that begins inside the window has been pushed into a reassembler
  -- in step with the stream, the byte that comes next is not among those held back: everything that
  -- can be written in order has been written.
  pub push_substring_maximal : occupied_at (push_substring r xs index eof) 0 ≡ false
  unfolding flagged
  push_substring_maximal = rw push_substring_lem (
      (end_if_complete-same (assembled r xs index eof)).1
      ∙ write_to_output-maximal s flagged flagged-InStep)

  stored_full :
      index ≤ r.first_unassembled_index
      → (j : ℕ)
      → j < min (index + length xs) (r.first_unassembled_index + room r) - r.first_unassembled_index
      → occupied_at (store_data r xs index).0 j ≡ true
  unfolding store_data
  stored_full h j hj =
      store_from-fills (bytes_can_be_stored r xs index - begin r index) r xs index (begin r index)
        (room r) j v.sizes (store_Fits r xs index v a)
        (inr (ground (arith, stored_lem r xs index v a)))

  -- An excerpt of the stream that begins at or before the next byte, inside the window, is
  -- assembled by a reassembler in step with the stream as far as it reaches or the room allows.
  pub push_substring_progress :
      index ≤ r.first_unassembled_index
      → min (index + length xs) (r.first_unassembled_index + room r)
        ≤ (push_substring r xs index eof).first_unassembled_index
  unfolding flagged
  push_substring_progress h =
      let f = store_data-frame r xs index in
      let n =
        min (index + length xs) (r.first_unassembled_index + room r) - r.first_unassembled_index in
      let covered =
        write_to_output-covers s flagged n flagged-InStep
          (omega (arith, f.first, f.capacity, a.small_first))
          (omega (arith, f.capacity, ap (λ (o : ByteStream). length o.buffer) f.output))
          (stored_full h) in
      rw push_substring_lem
        (omega (arith, (end_if_complete-same (assembled r xs index eof)).0, covered, f.first))
