-- ===== src/ByteStream/Refine.antt =====
-- The byte stream implements a bounded queue of bytes.
use csed353_computer_network.Prelude.{
  ℕ, ◌-◌, ◌≡◌, refl, ap, ◌∙◌, sym, List, [], ◌∷◌, ◌++◌, arith, length, take, drop, take_all,
  drop_all, ap₂, zero, suc, if◌then◌else◌, leb, ltb,
}
use csed353_computer_network.ByteStream.{
  ByteStream, remaining_capacity, appended, write, peek_output, pop_output, read, end_input,
  set_error,
}
use csed353_computer_network.ByteStream.Accounting.{IsValid, write_accepts}
use csed353_computer_network.ByteStream.Fifo.{
  Call, writes, reads, pops, ends, errs, step, step-IsValid,
}

-- What a caller is told: how many bytes were accepted, and the bytes read.
abbrev pub Reply : Type 0
Reply = ℕ × List ℕ

-- The specification: a queue that holds at most `cap` bytes.
abbrev pub spec_step : ℕ → List ℕ → Call → List ℕ × Reply
spec_step cap q (writes xs) =
    let taken = take (cap - length q) xs in (q ++ taken, (length taken, []))
spec_step cap q (reads n) = (drop n q, (0, take n q))
spec_step cap q (pops n) = (drop n q, (0, []))
spec_step cap q ends = (q, (0, []))
spec_step cap q errs = (q, (0, []))

unfoldable pub spec_run : ℕ → List ℕ → List Call → List Reply
spec_run cap q [] = []
spec_run cap q (c ∷ cs) = let (q', r) = spec_step cap q c in r ∷ spec_run cap q' cs

-- What the implementation tells the same caller.
abbrev pub reply : ByteStream → Call → Reply
reply s (writes xs) = ((write s xs).1, [])
reply s (reads n) = (0, (read s n).0)
reply s (pops n) = (0, [])
reply s ends = (0, [])
reply s errs = (0, [])

unfoldable pub replies : ByteStream → List Call → List Reply
replies s [] = []
replies s (c ∷ cs) = reply s c ∷ replies (step s c).0 cs

remaining_lem :
    (s : ByteStream) → IsValid s → remaining_capacity s ≡ s.total_capacity - length s.buffer
remaining_lem s v = omega arith

take_room :
    (r : ℕ) (xs : List ℕ)
    → (if leb r 0 then [] else (if ltb r (length xs) then take r xs else xs)) ≡ take r xs
take_room zero xs = refl
take_room (suc r) xs = ground (arith, take_all (suc r) xs)

appended-take :
    (s : ByteStream) (xs : List ℕ)
    → IsValid s
    → appended s xs ≡ take (s.total_capacity - length s.buffer) xs
appended-take s xs v = take_room (remaining_capacity s) xs ∙ ap (λ r. take r xs) (remaining_lem s v)

pub peek-take : (s : ByteStream) (n : ℕ) → peek_output s n ≡ take n s.buffer
unfolding peek_output
peek-take s n = ground (arith, take_all n s.buffer)

pub pop-drop : (s : ByteStream) (n : ℕ) → (pop_output s n).buffer ≡ drop n s.buffer
unfolding pop_output
pop-drop s n = ground (arith, drop_all n s.buffer)

cap-step : (s : ByteStream) (c : Call) → (step s c).0.total_capacity ≡ s.total_capacity
unfolding write read pop_output end_input set_error
cap-step s (writes xs) = refl
cap-step s (reads n) = ground arith
cap-step s (pops n) = ground arith
cap-step s ends = refl
cap-step s errs = refl

step_refines :
    (s : ByteStream) (c : Call)
    → IsValid s
    → ((step s c).0.buffer ≡ (spec_step s.total_capacity s.buffer c).0)
      × (reply s c ≡ (spec_step s.total_capacity s.buffer c).1)
unfolding write read end_input set_error
step_refines s (writes xs) v = (
  ap (λ t. s.buffer ++ t) (appended-take s xs v),
  ap (λ k. (k, [])) (sym (write_accepts s xs v).1 ∙ ap length (appended-take s xs v)),
)
step_refines s (reads n) v = (pop-drop s n, ap (λ t. (0, t)) (peek-take s n))
step_refines s (pops n) v = (pop-drop s n, refl)
step_refines s ends v = (refl, refl)
step_refines s errs v = (refl, refl)

-- No sequence of calls tells a valid byte stream from the queue of at most `total_capacity` bytes
-- that holds its buffer: the numbers of bytes accepted and the bytes read are the same. The queue takes
-- bytes after the end of the input as before it, and so does the byte stream.
pub run_refines :
    (s : ByteStream) (cs : List Call)
    → IsValid s
    → replies s cs ≡ spec_run s.total_capacity s.buffer cs
unfolding replies spec_run
run_refines s [] v = refl
run_refines s (c ∷ cs) v =
    let e = step_refines s c v in
    ap₂ ◌∷◌ e.1 (
      run_refines (step s c).0 cs (step-IsValid s c v)
      ∙ ap₂ (λ k q. spec_run k q cs) (cap-step s c) e.0)
