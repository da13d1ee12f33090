-- ===== src/StreamReassembler/Push.antt =====
-- `push_substring` keeps the reassembler in step with the stream whose excerpts it is given.
use csed353_computer_network.Prelude.{
  ℕ, suc, ◌+◌, ◌-◌, ◌^◌, ◌<◌, ◌≡◌, inl, inr, refl, ap, ap₂, sym, ◌∙◌, Bool, List, [], arith,
  Bool-cases, length, subst, ◌==◌, ◌&&◌, ◌||◌,
}
use csed353_computer_network.ByteStream
use csed353_computer_network.ByteStream.{ByteStream}
use csed353_computer_network.StreamReassembler.{
  StreamReassembler, collect, advance, write_to_output, store_data, begin, bytes_can_be_stored,
  push_substring, end_if_complete,
}
use csed353_computer_network.StreamReassembler.Store.{SameFrame, Excerpt, store_from-SameFrame}
use csed353_computer_network.StreamReassembler.Drain.{Collected}
use csed353_computer_network.StreamReassembler.InStep.{
  room, InStep, Admissible, frame-InStep, store_data-InStep,
}
use csed353_computer_network.StreamReassembler.Advance.{advance-InStep, drained}

room-frame : (s : ℕ → ℕ) (r r' : StreamReassembler) → SameFrame r r' → room r ≡ room r'
room-frame s r r' f =
    ap₂ (λ (m : ℕ) (o : ByteStream). m - length o.buffer) (sym f.capacity) (sym f.output)

pub write_to_output-InStep :
    (s : ℕ → ℕ) (r : StreamReassembler)
    → InStep s r
    → r.first_unassembled_index + r.capacity + r.capacity < 2 ^ 63
    → InStep s (write_to_output r)
unfolding write_to_output
write_to_output-InStep s r v small =
    let out = collect (suc (length r.occupied)) r 0 [] in
    let d = (drained s r v).0 in
    advance-InStep s r out.0 out.1 out.2 (frame-InStep s r out.0 v d.frame d.sizes d.window)
      (subst (λ b. Collected s b r out.0 out.1 out.2) (room-frame s r out.0 d.frame) d)
      (sym d.frame.first) (omega (arith, d.frame.first, d.frame.capacity))

pub flag-InStep :
    (s : ℕ → ℕ) (r : StreamReassembler) (flag : Bool)
    → InStep s r
    → InStep s (record r { is_eof_data_received = flag })
flag-InStep s r flag v = record {
  sizes = omega (arith, v.sizes);
  output_valid = v.output_valid;
  same_capacity = v.same_capacity;
  written = v.written;
  held = v.held;
  buffered = v.buffered;
  window = v.window;
}

ending-InStep :
    (s : ℕ → ℕ) (r : StreamReassembler)
    → InStep s r
    → InStep s (record r { output = ByteStream.end_input r.output })
unfolding ByteStream.end_input
ending-InStep s r v = record {
  sizes = omega (arith, v.sizes);
  output_valid = omega (arith, v.output_valid);
  same_capacity = v.same_capacity;
  written = v.written;
  held = v.held;
  buffered = v.buffered;
  window = v.window;
}

end_if_complete-InStep :
    (s : ℕ → ℕ) (r : StreamReassembler) → InStep s r → InStep s (end_if_complete r)
end_if_complete-InStep s r v =
    elim (Bool-cases (r.is_eof_data_received && (r.unassembled_bytes == 0))) [
      | inl e ↦ rw e (ending-InStep s r v)
      | inr e ↦ rw e v
    ]

-- `push_substring` without its last step.
abbrev pub assembled : StreamReassembler → List ℕ → ℕ → Bool → StreamReassembler
assembled r xs index eof =
    let stored = store_data r xs index in
    write_to_output (record stored.0 {
      is_eof_data_received = stored.0.is_eof_data_received || (eof && (stored.1 == length xs));
    })

pub push_substring_lem :
    (r : StreamReassembler) (xs : List ℕ) (index : ℕ) (eof : Bool)
    → push_substring r xs index eof ≡ end_if_complete (assembled r xs index eof)
unfolding push_substring
push_substring_lem r xs index eof = refl

pub store_data-frame :
    (r : StreamReassembler) (xs : List ℕ) (index : ℕ) → SameFrame r (store_data r xs index).0
unfolding store_data
store_data-frame r xs index =
    store_from-SameFrame (bytes_can_be_stored r xs index - begin r index) r xs index (begin r index)

pub assembled-InStep :
    (s : ℕ → ℕ) (r : StreamReassembler) (xs : List ℕ) (index : ℕ) (eof : Bool)
    → InStep s r
    → Admissible r xs index
    → Excerpt s xs index
    → InStep s (assembled r xs index eof)
assembled-InStep s r xs index eof v a ex =
    let f = store_data-frame r xs index in
    write_to_output-InStep s _
      (flag-InStep s (store_data r xs index).0 _ (store_data-InStep s r xs index v a ex))
      (omega (arith, f.first, f.capacity, a.small_first))

-- Whatever excerpt of the stream arrives next, in whatever order and however it overlaps the earlier
-- ones, a reassembler in step with the stream stays in step, if the excerpt begins inside the window.
pub push_substring-InStep :
    (s : ℕ → ℕ) (r : StreamReassembler) (xs : List ℕ) (index : ℕ) (eof : Bool)
    → InStep s r
    → Admissible r xs index
    → Excerpt s xs index
    → InStep s (push_substring r xs index eof)
push_substring-InStep s r xs index eof v a ex =
    rw push_substring_lem (end_if_complete-InStep s _ (assembled-InStep s r xs index eof v a ex))

write_to_output-read :
    (s : ℕ → ℕ) (r : StreamReassembler)
    → InStep s r
    → (write_to_output r).output.total_read_bytes ≡ r.output.total_read_bytes
unfolding write_to_output advance ByteStream.write
write_to_output-read s r v =
    ap (λ (o : ByteStream). o.total_read_bytes) (drained s r v).0.frame.output

end_if_complete-read :
    (r : StreamReassembler)
    → (end_if_complete r).output.total_read_bytes ≡ r.output.total_read_bytes
unfolding ByteStream.end_input
end_if_complete-read r = elim (Bool-cases (r.is_eof_data_received && (r.unassembled_bytes == 0))) [
  | inl e ↦ rw e
  | inr e ↦ rw e
]

-- Pushing an excerpt reads nothing.
pub push_substring-read :
    (s : ℕ → ℕ) (r : StreamReassembler) (xs : List ℕ) (index : ℕ) (eof : Bool)
    → InStep s r
    → Admissible r xs index
    → Excerpt s xs index
    → (push_substring r xs index eof).output.total_read_bytes ≡ r.output.total_read_bytes
push_substring-read s r xs index eof v a ex = rw push_substring_lem (
    end_if_complete-read (assembled r xs index eof)
    ∙ write_to_output-read s _
        (flag-InStep s (store_data r xs index).0 _ (store_data-InStep s r xs index v a ex))
    ∙ ap (λ (o : ByteStream). o.total_read_bytes) (store_data-frame r xs index).output)
