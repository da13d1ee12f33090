-- ===== src/StreamReassembler/Run.antt =====
-- The reassembler over a whole session: excerpts arrive, and the owner reads the output.
use csed353_computer_network.Prelude.{
  ℕ, suc, ◌+◌, ◌-◌, ◌^◌, ◌<◌, ◌≤◌, ◌≡◌, min, refl, ap, ap₂, sym, ◌∙◌, Bool, false, List, [], ◌∷◌,
  ◌++◌, arith, length, drop, take, append_assoc, length-replicate, get_or-replicate, replicate,
  length-drop, zero,
}
use csed353_computer_network.ByteStream
use csed353_computer_network.ByteStream.{ByteStream}
use csed353_computer_network.ByteStream.Accounting.{pop_output-IsValid, pop_output-counters}
use csed353_computer_network.ByteStream.Refine.{peek-take, pop-drop}
use native.Mathlib.Decide.{dec_lt}
use csed353_computer_network.StreamReassembler.{StreamReassembler, new, push_substring, space}
use csed353_computer_network.StreamReassembler.Ring.{
  at, slice, drop-slice, take-slice, slice-append, tally,
}
use csed353_computer_network.StreamReassembler.Store.{Excerpt}
use csed353_computer_network.StreamReassembler.InStep.{InStep, Admissible}
use csed353_computer_network.StreamReassembler.Push.{push_substring-InStep, push_substring-read}

pub data Event : Type 0 where
  arrives : List ℕ → ℕ → Bool → Event
  reads : ℕ → Event

-- The owner's `stream_out().read(n)`.
abbrev pub read_out : StreamReassembler → ℕ → StreamReassembler
read_out r n = record r { output = (ByteStream.read r.output n).1 }

-- The final state, and all that was read on the way.
unfoldable pub run : StreamReassembler → List Event → StreamReassembler × List ℕ
run r [] = (r, [])
run r (arrives xs index eof ∷ es) = run (push_substring r xs index eof) es
run r (reads n ∷ es) =
    let (r', out) = run (read_out r n) es in (r', (ByteStream.read r.output n).0 ++ out)

-- Each arrival is an excerpt of the stream `s` that begins inside the window of its moment.
abbrev pub FromStream : (ℕ → ℕ) → StreamReassembler → List Event → Type 0
FromStream s r [] = Unit {0}
FromStream s r (arrives xs index eof ∷ es) =
    Admissible r xs index × Excerpt s xs index × FromStream s (push_substring r xs index eof) es
FromStream s r (reads n ∷ es) = FromStream s (read_out r n) es

tally-replicate : (n : ℕ) → tally (replicate n false) ≡ 0
tally-replicate zero = refl
tally-replicate (suc n) = omega (arith, tally-replicate n)

pub new-InStep :
    (s : ℕ → ℕ) (capacity : ℕ) → 0 < capacity → capacity < 2 ^ 63 → InStep s (new capacity)
unfolding new ByteStream.new
new-InStep s capacity h h' = record {
  sizes = omega (
    arith,
    tally-replicate capacity,
    length-replicate capacity false,
    length-replicate capacity space,
  );
  output_valid = omega arith;
  same_capacity = refl;
  written = refl;
  held = omega arith;
  buffered = refl;
  window = λ j hj occupied. let e = get_or-replicate capacity (at capacity 0 j) false in cc;
}

-- The bytes read and the bytes buffered make up the bytes written.
read_lem :
    {s : ℕ → ℕ} (r : StreamReassembler)
    → InStep s r
    → r.output.total_read_bytes + length r.output.buffer ≡ r.first_unassembled_index
read_lem r v = omega (arith, v.sizes.small, v.output_valid, v.written, v.held)

slice-drop :
    (s : ℕ → ℕ) (first len n : ℕ)
    → len ≤ first
    → slice s (first - len + n) (len - n) ≡ slice s (first - (len - n)) (len - n)
slice-drop s first len n h = elim (dec_lt len n) [
  | yes p ↦ let e : len - n ≡ 0 = omega arith in rw e
  | no p ↦ ap (λ k. slice s k (len - n)) (omega arith)
]

read_out-InStep : (s : ℕ → ℕ) (r : StreamReassembler) (n : ℕ) → InStep s r → InStep s (read_out r n)
unfolding ByteStream.read
read_out-InStep s r n v =
    let e = pop-drop r.output n in
    let c = pop_output-counters r.output n in
    let len : length (ByteStream.pop_output r.output n).buffer ≡ length r.output.buffer - n =
      ap length e ∙ length-drop n r.output.buffer in
    record {
      sizes = omega (arith, v.sizes);
      output_valid = pop_output-IsValid r.output n v.output_valid;
      same_capacity = c.0 ∙ v.same_capacity;
      written = c.1 ∙ v.written;
      held = omega (arith, len, v.held);
      buffered =
          e
          ∙ ap (drop n) v.buffered
          ∙ drop-slice s _ _ n
          ∙ slice-drop s r.first_unassembled_index (length r.output.buffer) n v.held
          ∙ ap (λ k. slice s (r.first_unassembled_index - k) k) (sym len);
      window = λ j hj occupied. let w = v.window j hj occupied in (omega (arith, len, w.0), w.1);
    }

read_text :
    (s : ℕ → ℕ) (r : StreamReassembler) (n : ℕ)
    → InStep s r
    → (ByteStream.read r.output n).0
      ≡ slice s r.output.total_read_bytes (min n (length r.output.buffer))
unfolding ByteStream.read
read_text s r n v =
    peek-take r.output n
    ∙ ap (take n) v.buffered
    ∙ take-slice s _ _ n
    ∙ ap (λ k. slice s k (min n (length r.output.buffer))) (omega (arith, read_lem r v))

read_out-read :
    {s : ℕ → ℕ} (r : StreamReassembler) (n : ℕ)
    → InStep s r
    → (read_out r n).output.total_read_bytes
      ≡ r.output.total_read_bytes + min n (length r.output.buffer)
unfolding ByteStream.read
read_out-read r n v =
    (pop_output-counters r.output n).2 ∙ omega (arith, read_lem r v, v.sizes.small)

-- The position of a run: the bytes read continue the stream where the reader was.
abbrev Continues : (ℕ → ℕ) → StreamReassembler → StreamReassembler × List ℕ → Type 0
Continues s r (r', out) =
    (r.output.total_read_bytes ≤ r'.first_unassembled_index)
    × (out ++ r'.output.buffer
        ≡ slice s r.output.total_read_bytes
            (r'.first_unassembled_index - r.output.total_read_bytes))

run-Continues :
    (s : ℕ → ℕ) (r : StreamReassembler) (es : List Event)
    → InStep s r
    → FromStream s r es
    → InStep s (run r es).0 × Continues s r (run r es)
unfolding run
run-Continues s r [] v f = (
  v,
  (
    omega (arith, read_lem r v),
    v.buffered ∙ ap₂ (slice s) (omega (arith, read_lem r v)) (omega (arith, read_lem r v)),
  ),
)
run-Continues s r (arrives xs index eof ∷ es) v f =
    let ih = run-Continues s _ es (push_substring-InStep s r xs index eof v f.0 f.1) f.2 in
    let e = push_substring-read s r xs index eof v f.0 f.1 in
    (
      ih.0,
      (
        omega (arith, ih.1.0, e),
        ih.1.1
            ∙ ap
                (λ k.
                  slice s k
                    ((run (push_substring r xs index eof) es).0.first_unassembled_index - k))
                e,
      ),
    )
run-Continues s r (reads n ∷ es) v f =
    let ih = run-Continues s (read_out r n) es (read_out-InStep s r n v) f in
    let e = read_out-read r n v in
    (
      ih.0,
      (
        omega (arith, ih.1.0, e),
        append_assoc (ByteStream.read r.output n).0 (run (read_out r n) es).1
              (run (read_out r n) es).0.output.buffer
            ∙ ap₂ ◌++◌ (read_text s r n v) (
                ih.1.1
                ∙ ap (λ k. slice s k ((run (read_out r n) es).0.first_unassembled_index - k)) e)
            ∙ slice-append s r.output.total_read_bytes (min n (length r.output.buffer)) _
            ∙ ap (slice s r.output.total_read_bytes) (omega (arith, ih.1.0, e)),
      ),
    )

-- From an empty reassembler on, of a positive capacity below 2 ^ 63: whatever excerpts of a stream
-- arrive, each beginning inside the window of its moment, in whatever order, and whenever the owner
-- reads, the bytes read followed by the bytes waiting to be read are the stream's first bytes, as
-- many as have been written.
pub run_prefix :
    (s : ℕ → ℕ) (capacity : ℕ) (es : List Event)
    → 0 < capacity
    → capacity < 2 ^ 63
    → FromStream s (new capacity) es
    → (run (new capacity) es).1 ++ (run (new capacity) es).0.output.buffer
      ≡ slice s 0 (run (new capacity) es).0.output.total_written_bytes
unfolding new ByteStream.new
run_prefix s capacity es h h' f =
    let c = run-Continues s (new capacity) es (new-InStep s capacity h h') f in
    c.1.1 ∙ ap (slice s 0) (omega (arith, c.0.written))
