-- ===== src/StreamReassembler/Advance.antt =====
-- What `write_to_output` does after its loop keeps the reassembler in step with the stream.
use csed353_computer_network.Prelude.{
  ℕ, suc, ◌+◌, ◌-◌, ◌%◌, ◌^◌, ◌<◌, ◌≤◌, ◌≡◌, refl, ap, ap₂, sym, ◌∙◌, List, [], ◌++◌, arith, length,
  subst, add64, length-append,
}
use csed353_computer_network.ByteStream
use csed353_computer_network.ByteStream.{ByteStream}
use csed353_computer_network.ByteStream.Accounting.{write_whole, write-IsValid, write-capacity}
use csed353_computer_network.StreamReassembler.{StreamReassembler, collect, advance}
use csed353_computer_network.StreamReassembler.Ring.{
  at, slice, slice-append, length-slice, Window-shift, tally-le,
}
use csed353_computer_network.StreamReassembler.Store.{Sizes, InWindow}
use csed353_computer_network.StreamReassembler.Drain.{Collected, Ended, collect-Ended}
use csed353_computer_network.StreamReassembler.InStep.{room, InStep}

advance-Sizes :
    (r : StreamReassembler) (c : ℕ) (out : List ℕ)
    → Sizes r
    → r.first_unassembled_index + c + r.capacity < 2 ^ 63
    → Sizes (advance r c out)
unfolding advance
advance-Sizes r c out v h = omega arith

advance-window :
    (s : ℕ → ℕ) (bound : ℕ) (r₀ r : StreamReassembler) (count : ℕ) (out : List ℕ)
    → bound ≤ r.capacity
    → r.first_unassembled_index + count + r.capacity < 2 ^ 63
    → Collected s bound r₀ r count out
    → InWindow s (bound - count) (advance r count out)
unfolding advance
advance-window s bound r₀ r count out hb hs c =
    let e : add64 r.first_unassembled_index count ≡ r.first_unassembled_index + count =
      omega arith in
    let e' : add64 r.seperator count % r.capacity ≡ at r.capacity r.seperator count =
      ap (λ t. t % r.capacity) (omega (arith, c.sizes.inside)) in
    rw (e, e')
      (Window-shift s r.capacity r.seperator r.first_unassembled_index bound count
        r.unassembled_buffer r.occupied c.sizes.inside c.within hb c.cleared c.window)

module _ (s : ℕ → ℕ) (r₀ r : StreamReassembler) (count : ℕ) (out : List ℕ) (v : InStep s r)
    (c : Collected s (room r) r₀ r count out)
    (from : r₀.first_unassembled_index ≡ r.first_unassembled_index)
    (small : r.first_unassembled_index + r.capacity + r.capacity < 2 ^ 63) where
  length-out : length out ≡ count
  length-out = ap length c.text ∙ length-slice s r₀.first_unassembled_index count

  written_out :
      ((ByteStream.write r.output out).0.buffer ≡ r.output.buffer ++ out)
      × ((ByteStream.write r.output out).0.total_written_bytes
          ≡ add64 r.output.total_written_bytes (length out))
  written_out =
      write_whole r.output out v.output_valid (omega (arith, length-out, c.within, v.same_capacity))

  length_after : length (ByteStream.write r.output out).0.buffer ≡ length r.output.buffer + count
  length_after =
      ap length written_out.0
      ∙ length-append r.output.buffer out
      ∙ ap (λ k. length r.output.buffer + k) length-out

  text_after :
      (ByteStream.write r.output out).0.buffer
      ≡ slice s
          (r.first_unassembled_index - length r.output.buffer)
          (length r.output.buffer + count)
  text_after =
      written_out.0
      ∙ ap₂ ◌++◌ v.buffered (
          c.text
          ∙ ap (λ k. slice s k count)
              (from
                ∙ (let e : r.first_unassembled_index
                        ≡ r.first_unassembled_index
                          - length r.output.buffer
                          + length r.output.buffer =
                      omega (arith, v.held) in
                    e)))
      ∙ slice-append s (r.first_unassembled_index - length r.output.buffer) (length r.output.buffer)
          count

  pub advance-InStep : InStep s (advance r count out)
  unfolding advance
  advance-InStep = record {
    sizes = unfold advance in advance-Sizes r count out v.sizes (omega (arith, c.within));
    output_valid = write-IsValid r.output out v.output_valid;
    same_capacity = write-capacity r.output out ∙ v.same_capacity;
    written = written_out.1 ∙ ap₂ add64 v.written length-out;
    held = omega (arith, length_after, v.held, c.within, small);
    buffered =
        text_after
        ∙ ap₂ (slice s)
            (let e : r.first_unassembled_index - length r.output.buffer
                  ≡ add64 r.first_unassembled_index count
                    - length (ByteStream.write r.output out).0.buffer =
                omega (arith, length_after, v.held, c.within, small) in
              e)
            (sym length_after);
    window =
        subst (λ b. InWindow s b (advance r count out))
          (let e : room r - count ≡ r.capacity - length (ByteStream.write r.output out).0.buffer =
              omega (arith, length_after) in
            e)
          (advance-window s (room r) r₀ r count out (omega arith) (omega (arith, c.within)) c);
  }

-- Before the first round nothing is collected.
start : (s : ℕ → ℕ) (r : StreamReassembler) → InStep s r → Collected s (room r) r r 0 []
start s r v = record {
  sizes = v.sizes;
  frame = record { output = refl; capacity = refl; seperator = refl; first = refl; eof = refl };
  window = v.window;
  cleared = λ j h. elim h [ ];
  within = omega arith;
  text = refl;
  kept = λ j h h'. refl;
}

pub drained :
    (s : ℕ → ℕ) (r : StreamReassembler)
    → InStep s r
    → Ended s (room r) r (collect (suc (length r.occupied)) r 0 [])
drained s r v =
    collect-Ended s (room r) r (suc (length r.occupied)) r 0 [] (omega arith)
      (omega (arith, tally-le r.occupied)) (start s r v)
