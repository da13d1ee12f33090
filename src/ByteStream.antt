-- ===== src/ByteStream.antt =====
-- libsponge/byte_stream.hh and byte_stream.cc: the flow-controlled in-memory byte stream. A string
-- is a list of bytes, a byte is a number that is only moved, and `size_t` sums wrap at 2 ^ 64.
pub mod Accounting
pub mod Fifo
pub mod Refine
mod Tests
use csed353_computer_network.Prelude.{
  ℕ, Bool, true, false, List, [], ◌++◌, ltb, leb, ◌==◌, if◌then◌else◌, length, take, drop, add64,
  sub64,
}

pub record ByteStream : Type 0 where
  pub buffer : List ℕ
  pub total_capacity : ℕ
  pub is_input_ended : Bool
  pub total_written_bytes : ℕ
  pub total_read_bytes : ℕ
  pub is_eof : Bool
  pub error : Bool

unfoldable pub new : ℕ → ByteStream
new capacity = record {
  buffer = [];
  total_capacity = capacity;
  is_input_ended = false;
  total_written_bytes = 0;
  total_read_bytes = 0;
  is_eof = false;
  error = false;
}

abbrev pub buffer_size : ByteStream → ℕ
buffer_size s = length s.buffer

abbrev pub buffer_empty : ByteStream → Bool
buffer_empty s = length s.buffer == 0

abbrev pub remaining_capacity : ByteStream → ℕ
remaining_capacity s = sub64 s.total_capacity (length s.buffer)

-- How many bytes of `data` a `write` takes.
abbrev pub written_bytes : ByteStream → List ℕ → ℕ
written_bytes s data' =
    let cur_capacity = remaining_capacity s in
    if leb cur_capacity 0
    then 0
    else (if ltb cur_capacity (length data') then cur_capacity else length data')

-- What a `write` appends to the buffer.
abbrev pub appended : ByteStream → List ℕ → List ℕ
appended s data' =
    let cur_capacity = remaining_capacity s in
    if leb cur_capacity 0
    then []
    else (if ltb cur_capacity (length data') then take cur_capacity data' else data')

-- `write` returns the new stream and the number of bytes accepted.
unfoldable pub write : ByteStream → List ℕ → ByteStream × ℕ
write s data' = (
  record s {
    buffer = s.buffer ++ appended s data';
    total_written_bytes = add64 s.total_written_bytes (written_bytes s data');
  },
  written_bytes s data',
)

unfoldable pub peek_output : ByteStream → ℕ → List ℕ
peek_output s len = if ltb len (buffer_size s) then take len s.buffer else s.buffer

-- The removal itself, before the end-of-file flag is looked at.
abbrev pub removed : ByteStream → ℕ → ByteStream
removed s len =
    if ltb len (length s.buffer)
    then record s { total_read_bytes = add64 s.total_read_bytes len; buffer = drop len s.buffer }
    else record s { total_read_bytes = add64 s.total_read_bytes (length s.buffer); buffer = [] }

abbrev pub update_eof : ByteStream → ByteStream
update_eof s =
    if s.is_input_ended
    then record s { is_eof = s.total_written_bytes == s.total_read_bytes }
    else s

unfoldable pub pop_output : ByteStream → ℕ → ByteStream
pop_output s len = update_eof (removed s len)

unfoldable pub read : ByteStream → ℕ → List ℕ × ByteStream
unfolding peek_output pop_output
read s len = (peek_output s len, pop_output s len)

unfoldable pub end_input : ByteStream → ByteStream
end_input s = record s {
  is_input_ended = true;
  is_eof = s.total_written_bytes == s.total_read_bytes;
}

unfoldable pub set_error : ByteStream → ByteStream
set_error s = record s { error = true }

-- The accessors that only return a field.
abbrev pub input_ended : ByteStream → Bool
input_ended s = s.is_input_ended

abbrev pub eof : ByteStream → Bool
eof s = s.is_eof

abbrev pub bytes_written : ByteStream → ℕ
bytes_written s = s.total_written_bytes

abbrev pub bytes_read : ByteStream → ℕ
bytes_read s = s.total_read_bytes
