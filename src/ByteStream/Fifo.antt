-- ===== src/ByteStream/Fifo.antt =====
-- The stream as a queue: what comes out is what went in, in order.
use csed353_computer_network.Prelude.{
  ℕ, ◌≡◌, refl, ap, ◌∙◌, sym, List, [], ◌∷◌, ◌++◌, arith, append_assoc, append-nil,
  take-append-drop,
}
use csed353_computer_network.ByteStream.{
  ByteStream, appended, write, peek_output, pop_output, read, end_input, set_error,
}
use csed353_computer_network.ByteStream.Accounting.{
  IsValid, write-IsValid, pop_output-IsValid, end_input-IsValid, set_error-IsValid,
}

-- The calls that a stream's two owners can make.
pub data Call : Type 0 where
  writes : List ℕ → Call
  reads : ℕ → Call
  pops : ℕ → Call
  ends : Call
  errs : Call

-- A call's new state, the bytes that it accepted and the bytes that it handed out or discarded.
abbrev pub step : ByteStream → Call → ByteStream × List ℕ × List ℕ
step s (writes xs) = ((write s xs).0, appended s xs, [])
step s (reads n) = ((read s n).1, [], (read s n).0)
step s (pops n) = (pop_output s n, [], peek_output s n)
step s ends = (end_input s, [], [])
step s errs = (set_error s, [], [])

unfoldable pub run : ByteStream → List Call → ByteStream × List ℕ × List ℕ
run s [] = (s, [], [])
run s (c ∷ cs) =
    let (s', accepted, delivered) = step s c in
    let (s'', accepted', delivered') = run s' cs in
    (s'', accepted ++ accepted', delivered ++ delivered')

-- Reading is a peek and a removal of the same bytes.
pub peek-pop : (s : ByteStream) (n : ℕ) → peek_output s n ++ (pop_output s n).buffer ≡ s.buffer
unfolding peek_output pop_output
peek-pop s n = ground (arith, take-append-drop n s.buffer, append-nil s.buffer)

step_fifo :
    (s : ByteStream) (c : Call) → (step s c).2 ++ (step s c).0.buffer ≡ s.buffer ++ (step s c).1
unfolding write read end_input set_error
step_fifo s (writes xs) = refl
step_fifo s (reads n) = peek-pop s n ∙ sym (append-nil s.buffer)
step_fifo s (pops n) = peek-pop s n ∙ sym (append-nil s.buffer)
step_fifo s ends = sym (append-nil s.buffer)
step_fifo s errs = sym (append-nil s.buffer)

-- Over any calls, in any order, the bytes handed out followed by those still buffered are the bytes
-- buffered at first followed by those accepted: none is lost, duplicated or reordered.
pub run_fifo :
    (s : ByteStream) (cs : List Call)
    → (run s cs).2 ++ (run s cs).0.buffer ≡ s.buffer ++ (run s cs).1
unfolding run
run_fifo s [] = sym (append-nil s.buffer)
run_fifo s (c ∷ cs) =
    append_assoc (step s c).2 (run s' cs).2 (run s' cs).0.buffer
    ∙ ap (λ t. (step s c).2 ++ t) (run_fifo s' cs)
    ∙ sym (append_assoc (step s c).2 s'.buffer (run s' cs).1)
    ∙ ap (λ t. t ++ (run s' cs).1) (step_fifo s c)
    ∙ append_assoc s.buffer (step s c).1 (run s' cs).1
  where
    s' : ByteStream
    s' = (step s c).0

pub step-IsValid : (s : ByteStream) (c : Call) → IsValid s → IsValid (step s c).0
unfolding read
step-IsValid s (writes xs) v = write-IsValid s xs v
step-IsValid s (reads n) v = pop_output-IsValid s n v
step-IsValid s (pops n) v = pop_output-IsValid s n v
step-IsValid s ends v = end_input-IsValid s v
step-IsValid s errs v = set_error-IsValid s v

-- A stream whose buffer fits its capacity and whose counters agree with its buffer keeps both
-- properties through any calls.
pub run-IsValid : (s : ByteStream) (cs : List Call) → IsValid s → IsValid (run s cs).0
unfolding run
run-IsValid s [] v = v
run-IsValid s (c ∷ cs) v = run-IsValid (step s c).0 cs (step-IsValid s c v)
