-- ===== src/StreamReassembler.antt =====
-- libsponge/stream_reassembler.hh and stream_reassembler.cc: excerpts of a byte stream, out of order
-- and overlapping, are put together in a circular buffer and written to the output stream. The
-- source takes indices `% _capacity`, so the capacity is positive wherever this code runs.
pub mod Ring
pub mod Store
pub mod Fill
pub mod Drain
pub mod InStep
pub mod Advance
pub mod Push
pub mod Progress
pub mod Limits
pub mod Run
mod Tests
use csed353_computer_network.Prelude.{
  ℕ, zero, suc, ◌+◌, ◌-◌, ◌%◌, min, Bool, true, false, ◌&&◌, ◌||◌, List, [], ◌∷◌, ◌++◌, ltb, ◌==◌,
  if◌then◌else◌, length, get_or, set, replicate, add64, sub64,
}
use csed353_computer_network.ByteStream.{ByteStream}
use csed353_computer_network.ByteStream

pub record StreamReassembler : Type 0 where
  pub output : ByteStream
  pub capacity : ℕ
  pub unassembled_buffer : List ℕ
  pub occupied : List Bool
  pub seperator : ℕ
  pub first_unassembled_index : ℕ
  pub unassembled_bytes : ℕ
  pub is_eof_data_received : Bool

abbrev pub space : ℕ
space = 0x20

unfoldable pub new : ℕ → StreamReassembler
new capacity = record {
  output = ByteStream.new capacity;
  capacity = capacity;
  unassembled_buffer = replicate capacity space;
  occupied = replicate capacity false;
  seperator = 0;
  first_unassembled_index = 0;
  unassembled_bytes = 0;
  is_eof_data_received = false;
}

abbrev pub bytes_can_be_stored : StreamReassembler → List ℕ → ℕ → ℕ
bytes_can_be_stored r data' index =
    let bytes_reassembled_but_not_read = ByteStream.buffer_size r.output in
    min (length data') (
      add64 (sub64 (sub64 r.capacity bytes_reassembled_but_not_read) index)
        r.first_unassembled_index)

abbrev pub begin : StreamReassembler → ℕ → ℕ
begin r index = if ltb index r.first_unassembled_index then r.first_unassembled_index - index else 0

-- The cell for the byte `data[i]`.
abbrev pub cell : StreamReassembler → ℕ → ℕ → ℕ
cell r index i = sub64 (add64 (add64 i index) r.seperator) r.first_unassembled_index % r.capacity

unfoldable pub store_byte : StreamReassembler → ℕ → ℕ → StreamReassembler
store_byte r buf_i byte = record r {
  unassembled_bytes =
      if get_or r.occupied buf_i false then r.unassembled_bytes else add64 r.unassembled_bytes 1;
  unassembled_buffer = set r.unassembled_buffer buf_i byte;
  occupied = set r.occupied buf_i true;
}

-- The loop of `store_data`, with the rounds left: `for (i = ..; i < i + rounds; i++)`.
unfoldable pub store_from : ℕ → StreamReassembler → List ℕ → ℕ → ℕ → StreamReassembler
store_from zero r data' index i = r
store_from (suc rounds) r data' index i =
    store_from rounds (store_byte r (cell r index i) (get_or data' i 0)) data' index (i + 1)

-- `store_data` returns the new state and the number of bytes that it says were stored.
unfoldable pub store_data : StreamReassembler → List ℕ → ℕ → StreamReassembler × ℕ
unfolding store_from store_byte
store_data r data' index =
    let stored = bytes_can_be_stored r data' index in
    (store_from (stored - begin r index) r data' index (begin r index), stored)

-- One round of the loop of `write_to_output`: the cell is emptied.
unfoldable pub clear_byte : StreamReassembler → ℕ → StreamReassembler
clear_byte r buf_i = record r {
  unassembled_buffer = set r.unassembled_buffer buf_i space;
  occupied = set r.occupied buf_i false;
  unassembled_bytes = sub64 r.unassembled_bytes 1;
}

-- The cell that `write_to_output` looks at after `count` rounds.
abbrev pub next_cell : StreamReassembler → ℕ → ℕ
next_cell r count = add64 count r.seperator % r.capacity

-- The loop of `write_to_output`: the state, `count` and `reassembled`.
unfoldable pub collect : ℕ → StreamReassembler → ℕ → List ℕ → StreamReassembler × ℕ × List ℕ
collect zero r count reassembled = (r, count, reassembled)
collect (suc fuel) r count reassembled = elim (get_or r.occupied (next_cell r count) false) [
  | true ↦
      collect fuel (clear_byte r (next_cell r count)) (add64 count 1)
        (reassembled ++ (get_or r.unassembled_buffer (next_cell r count) 0 ∷ []))
  | false ↦ (r, count, reassembled)
]

-- What `write_to_output` does after its loop.
unfoldable pub advance : StreamReassembler → ℕ → List ℕ → StreamReassembler
advance r count reassembled = record r {
  output = (ByteStream.write r.output reassembled).0;
  first_unassembled_index = add64 r.first_unassembled_index count;
  seperator = add64 r.seperator count % r.capacity;
}

-- Every round empties an occupied cell, so one round more than there are cells is enough.
unfoldable pub write_to_output : StreamReassembler → StreamReassembler
unfolding collect clear_byte advance
write_to_output r =
    let (r', count, reassembled) = collect (suc (length r.occupied)) r 0 [] in
    advance r' count reassembled

-- The end of `push_substring`.
abbrev pub end_if_complete : StreamReassembler → StreamReassembler
end_if_complete r =
    if r.is_eof_data_received && (r.unassembled_bytes == 0)
    then record r { output = ByteStream.end_input r.output }
    else r

unfoldable pub push_substring : StreamReassembler → List ℕ → ℕ → Bool → StreamReassembler
unfolding store_data write_to_output
push_substring r data' index eof =
    let (stored, stored_bytes) = store_data r data' index in
    let is_all_stored = stored_bytes == length data' in
    end_if_complete (
      write_to_output (record stored {
        is_eof_data_received = stored.is_eof_data_received || (eof && is_all_stored);
      }))

abbrev pub empty : StreamReassembler → Bool
empty r = (r.unassembled_bytes == 0) && ByteStream.buffer_empty r.output
