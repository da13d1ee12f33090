-- ===== src/ByteStream/Accounting.antt =====
-- The counters of a byte stream: what is buffered fits, and is what was written and not yet read.
use csed353_computer_network.Prelude.{
  ℕ, ◌-◌, ◌<◌, ◌≤◌, ◌≡◌, refl, ◌↔◌, min, true, List, [], arith, length, add64, u64_mod,
  length-append, length-take, length-drop, take_all, ◌++◌,
}
use csed353_computer_network.ByteStream.{
  ByteStream, new, remaining_capacity, appended, write, peek_output, pop_output, end_input,
  set_error,
}

pub record IsValid (s : ByteStream) : Type 0 where
  pub capacity_fits : s.total_capacity < u64_mod
  pub within : length s.buffer ≤ s.total_capacity
  pub read_fits : s.total_read_bytes < u64_mod
  pub counted : s.total_written_bytes ≡ add64 s.total_read_bytes (length s.buffer)

pub new-IsValid : (capacity : ℕ) → capacity < u64_mod → IsValid (new capacity)
unfolding new
new-IsValid capacity h = omega arith

-- A write takes as much as fits: the smaller of the data's length and the free room.
pub write_accepts :
    (s : ByteStream) (xs : List ℕ)
    → IsValid s
    → ((write s xs).1 ≡ min (length xs) (s.total_capacity - length s.buffer))
      × (length (appended s xs) ≡ (write s xs).1)
unfolding write
write_accepts s xs v = ground (arith, length-take (remaining_capacity s) xs)

pub write-IsValid : (s : ByteStream) (xs : List ℕ) → IsValid s → IsValid (write s xs).0
unfolding write
write-IsValid s xs v =
    ground (arith, length-append s.buffer (appended s xs), length-take (remaining_capacity s) xs)

pub length-peek : (s : ByteStream) (n : ℕ) → length (peek_output s n) ≡ min n (length s.buffer)
unfolding peek_output
length-peek s n = ground (arith, length-take n s.buffer)

pub pop_output-IsValid : (s : ByteStream) (n : ℕ) → IsValid s → IsValid (pop_output s n)
unfolding pop_output
pop_output-IsValid s n v = ground (arith, length-drop n s.buffer)

pub end_input-IsValid : (s : ByteStream) → IsValid s → IsValid (end_input s)
unfolding end_input
end_input-IsValid s v = omega arith

pub set_error-IsValid : (s : ByteStream) → IsValid s → IsValid (set_error s)
unfolding set_error
set_error-IsValid s v = omega arith

pub length-zero : (xs : List ℕ) → length xs ≡ 0 → xs ≡ []
length-zero xs h = ground arith

-- After the input of a valid stream has ended, taking bytes out leaves the end-of-file flag raised
-- exactly when nothing is left in the buffer.
pub pop_output-eof :
    (s : ByteStream) (n : ℕ)
    → IsValid s
    → s.is_input_ended ≡ true
    → ((pop_output s n).is_eof ≡ true) ↔ ((pop_output s n).buffer ≡ [])
unfolding pop_output
pop_output-eof s n v e = ground (arith, length-drop n s.buffer)

pub end_input-eof :
    (s : ByteStream) → IsValid s → ((end_input s).is_eof ≡ true) ↔ ((end_input s).buffer ≡ [])
unfolding end_input
end_input-eof s v = ground arith

-- Data that fits is written whole.
pub write_whole :
    (s : ByteStream) (xs : List ℕ)
    → IsValid s
    → length xs ≤ s.total_capacity - length s.buffer
    → ((write s xs).0.buffer ≡ s.buffer ++ xs)
      × ((write s xs).0.total_written_bytes ≡ add64 s.total_written_bytes (length xs))
unfolding write
write_whole s xs v h = ground (arith, take_all (remaining_capacity s) xs, length-zero xs)

pub write-capacity :
    (s : ByteStream) (xs : List ℕ) → (write s xs).0.total_capacity ≡ s.total_capacity
unfolding write
write-capacity s xs = refl

-- Taking bytes out moves only the read counter, by what was there to take.
pub pop_output-counters :
    (s : ByteStream) (n : ℕ)
    → ((pop_output s n).total_capacity ≡ s.total_capacity)
      × ((pop_output s n).total_written_bytes ≡ s.total_written_bytes)
      × ((pop_output s n).total_read_bytes ≡ add64 s.total_read_bytes (min n (length s.buffer)))
unfolding pop_output
pop_output-counters s n = ground arith
