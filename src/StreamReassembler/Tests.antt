-- ===== src/StreamReassembler/Tests.antt =====
-- Runs of the reassembler on a stream whose byte k is 10 + k, and the theorems at those runs.
use csed353_computer_network.Prelude.{
  ℕ, zero, suc, ◌+◌, ◌≤◌, ◌≡◌, refl, true, false, List, [], ◌∷◌, ◌++◌, arith,
}
use csed353_computer_network.ByteStream
use csed353_computer_network.StreamReassembler.{new, push_substring}
use csed353_computer_network.StreamReassembler.Ring.{slice}
use csed353_computer_network.StreamReassembler.Store.{Excerpt}
use csed353_computer_network.StreamReassembler.InStep.{InStep, Admissible}
use csed353_computer_network.StreamReassembler.Push.{push_substring-InStep}
use csed353_computer_network.StreamReassembler.Progress.{push_substring_progress}
use csed353_computer_network.StreamReassembler.Limits.{push_substring_early_eof}
use csed353_computer_network.StreamReassembler.Run.{
  Event, arrives, reads, run, FromStream, new-InStep, run_prefix,
}

abbrev tens : ℕ → ℕ
tens k = 10 + k

abbrev later : List ℕ
later = 11 ∷ 12 ∷ []

abbrev earlier : List ℕ
earlier = 10 ∷ 11 ∷ []

abbrev session : List Event
session = arrives later 1 false ∷ arrives earlier 0 false ∷ reads 2 ∷ arrives (13 ∷ []) 3 true ∷ []

-- The second excerpt overlaps the first, and closes the gap before it.
run-session :
    let (r, out) = run (new 4) session in
    (out ≡ 10 ∷ 11 ∷ [])
    × (r.output.buffer ≡ 12 ∷ 13 ∷ [])
    × (r.output.is_input_ended ≡ true)
    × (r.first_unassembled_index ≡ 4)
unfolding run new push_substring ByteStream.new ByteStream.write ByteStream.read
    ByteStream.end_input
run-session = (refl, refl, refl, refl)

later-Excerpt : Excerpt tens later 1
later-Excerpt zero h = refl
later-Excerpt (suc zero) h = refl
later-Excerpt (suc (suc k)) h = absurd (omega arith)

earlier-Excerpt : Excerpt tens earlier 0
earlier-Excerpt zero h = refl
earlier-Excerpt (suc zero) h = refl
earlier-Excerpt (suc (suc k)) h = absurd (omega arith)

last-Excerpt : Excerpt tens (13 ∷ []) 3
last-Excerpt zero h = refl
last-Excerpt (suc k) h = absurd (omega arith)

new-later : Admissible (new 4) later 1
unfolding new ByteStream.new
new-later = omega arith

new-earlier : Admissible (new 4) earlier 0
unfolding new ByteStream.new
new-earlier = omega arith

empty-InStep : InStep tens (new 4)
empty-InStep = new-InStep tens 4 (omega arith) (omega arith)

session-FromStream : FromStream tens (new 4) session
unfolding new push_substring ByteStream.new ByteStream.write ByteStream.read ByteStream.end_input
session-FromStream =
    (omega arith, later-Excerpt, (omega arith, earlier-Excerpt, (omega arith, last-Excerpt, tt)))

push_substring-InStep_example : InStep tens (push_substring (new 4) later 1 false)
push_substring-InStep_example =
    push_substring-InStep tens (new 4) later 1 false empty-InStep new-later later-Excerpt

push_substring_progress_example :
    2 ≤ (push_substring (new 4) earlier 0 false).first_unassembled_index
unfolding new ByteStream.new
push_substring_progress_example =
    push_substring_progress tens (new 4) earlier 0 false empty-InStep new-earlier earlier-Excerpt
      (omega arith)

run_prefix_example :
    (run (new 4) session).1 ++ (run (new 4) session).0.output.buffer
    ≡ slice tens 0 (run (new 4) session).0.output.total_written_bytes
run_prefix_example = run_prefix tens 4 session (omega arith) (omega arith) session-FromStream

-- So the reader gets it as byte 2.
misplaced_byte :
    (push_substring (push_substring (new 4) (99 ∷ []) 6 false) earlier 0 false).output.buffer
    ≡ 10 ∷ 11 ∷ 99 ∷ []
unfolding new push_substring ByteStream.new ByteStream.write
misplaced_byte = refl

-- The end of a stream of five bytes overtakes them.
push_substring_early_eof_example :
    ((push_substring (new 4) [] 5 true).output.is_input_ended ≡ true)
    × ((push_substring (new 4) [] 5 true).output.total_written_bytes ≡ 0)
unfolding new ByteStream.new
push_substring_early_eof_example = push_substring_early_eof tens (new 4) 5 empty-InStep refl
