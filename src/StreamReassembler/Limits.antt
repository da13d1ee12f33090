-- ===== src/StreamReassembler/Limits.antt =====
-- What `push_substring` does outside the cases that it is meant for: excerpts beyond the window, and
-- an empty excerpt that ends the stream before its turn.
use csed353_computer_network.Prelude.{
  ℕ, zero, suc, ◌-◌, ◌≡◌, refl, ap, ◌∙◌, Bool, true, false, List, [], ◌∷◌, arith, ◌&&◌, ◌||◌,
  length, get_or, ◌==◌,
}
use csed353_computer_network.ByteStream
use csed353_computer_network.ByteStream.Accounting.{write_whole}
use csed353_computer_network.StreamReassembler.{
  StreamReassembler, store_from, store_data, begin, bytes_can_be_stored, advance, write_to_output,
  push_substring,
}
use csed353_computer_network.StreamReassembler.Ring.{tally}
use csed353_computer_network.StreamReassembler.Store.{Sizes}
use csed353_computer_network.StreamReassembler.Drain.{collect_stop}
use csed353_computer_network.StreamReassembler.InStep.{InStep}
use csed353_computer_network.StreamReassembler.Push.{assembled, push_substring_lem}

tally-zero : (bs : List Bool) (i : ℕ) → tally bs ≡ 0 → get_or bs i false ≡ false
tally-zero [] i h = refl
tally-zero (true ∷ bs) i h = absurd (omega arith)
tally-zero (false ∷ bs) zero h = refl
tally-zero (false ∷ bs) (suc i) h = tally-zero bs i (omega arith)

write_to_output-idle :
    (r : StreamReassembler) → Sizes r → r.unassembled_bytes ≡ 0 → write_to_output r ≡ advance r 0 []
unfolding write_to_output
write_to_output-idle r v h =
    ap (λ (t : StreamReassembler × ℕ × List ℕ). advance t.0 t.1 t.2)
      (collect_stop (length r.occupied) r 0 [] v (omega arith)
        (tally-zero r.occupied _ (omega (arith, v.counted))))

store_nothing : (r : StreamReassembler) (index : ℕ) → store_data r [] index ≡ (r, 0)
unfolding store_data store_from
store_nothing r index =
    let stored : bytes_can_be_stored r [] index ≡ 0 = omega arith in
    let rounds : 0 - begin r index ≡ 0 = omega arith in
    ap (λ k. (store_from (k - begin r index) r [] index (begin r index), k)) stored
    ∙ ap (λ k. (store_from k r [] index (begin r index), 0)) rounds

flag_set : (b : Bool) → (b || (true && (0 == 0))) ≡ true
flag_set true = refl
flag_set false = refl

assembled_early :
    (r : StreamReassembler) (index : ℕ)
    → Sizes r
    → r.unassembled_bytes ≡ 0
    → assembled r [] index true ≡ advance (record r { is_eof_data_received = true }) 0 []
assembled_early r index v h =
    ap
      (λ (p : StreamReassembler × ℕ).
        write_to_output
          (record p.0 { is_eof_data_received = p.0.is_eof_data_received || (true && (p.1 == 0)) }))
      (store_nothing r index)
    ∙ ap (λ b. write_to_output (record r { is_eof_data_received = b }))
        (flag_set r.is_eof_data_received)
    ∙ write_to_output-idle (record r { is_eof_data_received = true }) (omega (arith, v)) h

-- In a reassembler in step with a stream that holds nothing back, an empty excerpt that carries the
-- end of the stream ends the output at once, whatever its index, and writes nothing: bytes before
-- its index may still be on their way.
pub push_substring_early_eof :
    (s : ℕ → ℕ) (r : StreamReassembler) (index : ℕ)
    → InStep s r
    → r.unassembled_bytes ≡ 0
    → ((push_substring r [] index true).output.is_input_ended ≡ true)
      × ((push_substring r [] index true).output.total_written_bytes ≡ r.output.total_written_bytes)
unfolding advance ByteStream.end_input
push_substring_early_eof s r index v h =
    rw (push_substring_lem, assembled_early r index v.sizes h)
      (rw h (
        refl,
        (write_whole r.output [] v.output_valid (omega arith)).1 ∙ omega (arith, v.output_valid),
      ))
