-- ===== src/ByteStream/Tests.antt =====
-- Runs of the byte stream, and the theorems at a concrete stream.
use csed353_computer_network.Prelude.{◌≡◌, refl, true, false, List, [], ◌∷◌, arith}
use csed353_computer_network.ByteStream.{ByteStream, write, read, pop_output, end_input}
use csed353_computer_network.ByteStream.Accounting.{IsValid}
use csed353_computer_network.ByteStream.Fifo.{Call, writes, reads, pops, ends}
use csed353_computer_network.ByteStream.Refine.{replies, spec_run, run_refines}

-- Capacity 4, one byte read, two buffered, input ended.
abbrev ended : ByteStream
ended = record {
  buffer = 7 ∷ 8 ∷ [];
  total_capacity = 4;
  is_input_ended = true;
  total_written_bytes = 3;
  total_read_bytes = 1;
  is_eof = false;
  error = false;
}

abbrev script : List Call
script = writes (1 ∷ 2 ∷ 3 ∷ []) ∷ reads 3 ∷ pops 1 ∷ ends ∷ []

ended-IsValid : IsValid ended
ended-IsValid = omega arith

-- Only two of the three bytes fit.
replies_run : replies ended script ≡ (2, []) ∷ (0, 7 ∷ 8 ∷ 1 ∷ []) ∷ (0, []) ∷ (0, []) ∷ []
unfolding replies write read pop_output end_input
replies_run = refl

run_refines_example : replies ended script ≡ spec_run 4 (7 ∷ 8 ∷ []) script
run_refines_example = run_refines ended script ended-IsValid
