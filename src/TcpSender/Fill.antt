-- ===== src/TcpSender/Fill.antt =====
-- `fill_window` keeps the account of what is in flight, and its loop ends by itself.
use csed353_computer_network.Prelude.{
  ℕ, ◌+◌, ◌-◌, ◌^◌, ◌<◌, ◌≡◌, inl, inr, min, refl, ap, ap₂, sym, ◌∙◌, Bool, true, false, not, List,
  arith, length, take, drop, if◌then◌else◌, ◌==◌, Bool-cases, if_elim, not-true, and_parts,
  length-take, length-drop,
}
use native.Mathlib.Decide.{dec_lt}
use csed353_computer_network.ByteStream
use csed353_computer_network.ByteStream.{ByteStream}
use csed353_computer_network.ByteStream.Accounting.{IsValid, pop_output-IsValid}
use csed353_computer_network.ByteStream.Refine.{peek-take, pop-drop}
use csed353_computer_network.StreamReassembler.Ring.{slice, drop-slice, take-slice}
use csed353_computer_network.TcpSegment.{length_in_sequence_space}
use csed353_computer_network.TcpSender.{
  TcpSender, transmit, fin_segment, data_segment, after_read, send_taken, bytes_to_send, send_fin,
  send_data,
}
use csed353_computer_network.TcpSender.Chain.{Flight, Sound, transmit-Flight}

-- The numbers that the sender can still use, with those that it has used.
abbrev pub budget : TcpSender → ℕ
budget s = s.next_seqno + length s.stream.buffer + (if s.is_fin_sent then 0 else 1)

not_sent :
    (s : TcpSender)
    → not s.is_fin_sent ≡ true
    → budget s ≡ s.next_seqno + length s.stream.buffer + 1
not_sent s e =
    ap (λ b. s.next_seqno + length s.stream.buffer + (if b then 0 else 1))
      (not-true s.is_fin_sent e)

pub send_fin-Sound :
    (st : ℕ → ℕ) (s : TcpSender)
    → Sound st s
    → budget s < 2 ^ 63
    → s.stream.is_eof ≡ true
    → Sound st (send_fin s)
unfolding send_fin
send_fin-Sound st s v small ended =
    if_elim (Sound st) (not s.is_fin_sent) (transmit (record s { is_fin_sent = true }) fin_segment)
      s
      (λ e. record {
        flight =
            transmit-Flight st (record s { is_fin_sent = true }) fin_segment
              (record {
                isn_range = v.flight.isn_range;
                acked_sent = v.flight.acked_sent;
                in_flight_sent = v.flight.in_flight_sent;
                oldest = v.flight.oldest;
                chain = v.flight.chain;
              })
              (omega arith) (omega (arith, not_sent s e)) refl;
        stream_valid = unfold transmit in v.stream_valid;
        pending = unfold transmit in λ h. absurd (ground arith);
        fin_at_end = unfold transmit in λ h. ended;
      })
      (λ e. v)

abbrev taken : TcpSender → ℕ → ℕ
taken s available = min (bytes_to_send available) (length s.stream.buffer)

slice-min :
    (st : ℕ → ℕ) (next len n : ℕ)
    → 0 < next
    → slice st (next - 1 + n) (len - n) ≡ slice st (next + min n len - 1) (len - min n len)
slice-min st next len n pos = elim (dec_lt len n) [
  | yes p ↦
      let e : len - n ≡ 0 = omega arith in let e' : len - min n len ≡ 0 = omega arith in rw (e, e')
  | no p ↦ ap₂ (slice st) (omega arith) (omega arith)
]

-- What a round takes out of the stream, and what it leaves there.
read_lem :
    (st : ℕ → ℕ) (s : TcpSender) (n : ℕ)
    → Sound st s
    → s.is_fin_sent ≡ false
    → 0 < s.next_seqno
    → let k = min n (length s.stream.buffer) in
      ((ByteStream.read s.stream n).0 ≡ slice st (s.next_seqno - 1) k)
      × (length (ByteStream.read s.stream n).0 ≡ k)
      × ((ByteStream.read s.stream n).1.buffer
          ≡ slice st (s.next_seqno + k - 1) (length s.stream.buffer - k))
      × (length (ByteStream.read s.stream n).1.buffer ≡ length s.stream.buffer - k)
unfolding ByteStream.read
read_lem st s n v h pos =
    let p = peek-take s.stream n in
    let d = pop-drop s.stream n in
    let len : length s.stream.buffer - n ≡ length s.stream.buffer - min n (length s.stream.buffer) =
      omega arith in
    (
      p ∙ ap (take n) (v.pending h) ∙ take-slice st _ _ n,
      ap length p ∙ length-take n s.stream.buffer,
      d
          ∙ ap (drop n) (v.pending h)
          ∙ drop-slice st _ _ n
          ∙ slice-min st s.next_seqno (length s.stream.buffer) n pos,
      ap length d ∙ length-drop n s.stream.buffer ∙ len,
    )

module _ (st : ℕ → ℕ) (s : TcpSender) (stream : ByteStream) (xs : List ℕ) (v : Sound st s)
    (valid : IsValid stream) (text : xs ≡ slice st (s.next_seqno - 1) (length xs))
    (rest : stream.buffer ≡ slice st (s.next_seqno + length xs - 1) (length stream.buffer))
    (small : s.next_seqno + length xs + 1 < 2 ^ 63) where
  after_read-Flight : (fin : Bool) → Flight st (after_read s stream fin)
  after_read-Flight fin = record {
    isn_range = v.flight.isn_range;
    acked_sent = v.flight.acked_sent;
    in_flight_sent = v.flight.in_flight_sent;
    oldest = v.flight.oldest;
    chain = v.flight.chain;
  }

  -- A segment that also carries the FIN.
  with_fin-Sound :
      stream.is_eof ≡ true → Sound st (transmit (after_read s stream true) (data_segment xs true))
  with_fin-Sound ended = record {
    flight =
        transmit-Flight st (after_read s stream true) (data_segment xs true)
          (after_read-Flight true) (omega arith) (omega arith) text;
    stream_valid = unfold transmit in valid;
    pending = unfold transmit in λ h. absurd (ground arith);
    fin_at_end = unfold transmit in λ h. ended;
  }

  without_fin-Sound :
      s.is_fin_sent ≡ false
      → 0 < length xs
      → Sound st (transmit (after_read s stream false) (data_segment xs false))
  without_fin-Sound h pos = record {
    flight =
        transmit-Flight st (after_read s stream false) (data_segment xs false)
          (after_read-Flight false) (omega arith) (omega arith) text;
    stream_valid = unfold transmit in valid;
    pending =
        unfold transmit in
        λ _. rest ∙ ap (λ k. slice st (k - 1) (length stream.buffer)) (omega arith);
    fin_at_end = unfold transmit in λ h'. absurd (ground arith);
  }

  unsent-Sound : s.is_fin_sent ≡ false → length xs ≡ 0 → Sound st (after_read s stream false)
  unsent-Sound h zero_length = record {
    flight = after_read-Flight false;
    stream_valid = valid;
    pending = λ _. rest ∙ ap (λ k. slice st (k - 1) (length stream.buffer)) (omega arith);
    fin_at_end = λ h'. absurd (ground arith);
  }

  send_taken-Sound :
      (fin : Bool)
      → s.is_fin_sent ≡ false
      → (fin ≡ true → stream.is_eof ≡ true)
      → Sound st (send_taken s stream xs fin).0
  unfolding send_taken
  send_taken-Sound true h e =
      if_elim (λ (p : TcpSender × Bool). Sound st p.0)
        (length_in_sequence_space (data_segment xs true) == 0) (after_read s stream true, false)
        (transmit (after_read s stream true) (data_segment xs true), true)
        (λ none_sent. absurd (ground arith)) (λ _. with_fin-Sound (e refl))
  send_taken-Sound false h e =
      if_elim (λ (p : TcpSender × Bool). Sound st p.0)
        (length_in_sequence_space (data_segment xs false) == 0) (after_read s stream false, false)
        (transmit (after_read s stream false) (data_segment xs false), true)
        (λ none_sent. unsent-Sound h (ground arith))
        (λ some_sent. without_fin-Sound h (ground arith))

pub not_ended :
    {st : ℕ → ℕ} (s : TcpSender) → Sound st s → s.stream.is_eof ≡ false → s.is_fin_sent ≡ false
not_ended s v h = elim (Bool-cases s.is_fin_sent) [
  | inl e ↦ let e' = v.fin_at_end e in absurd (ground arith)
  | inr e ↦ e
]

pub send_data-Sound :
    (st : ℕ → ℕ) (s : TcpSender) (window available : ℕ)
    → Sound st s
    → budget s < 2 ^ 63
    → 0 < s.next_seqno
    → s.stream.is_eof ≡ false
    → Sound st (send_data s window available).0
unfolding send_data
send_data-Sound st s window available v small pos open_end =
    let n = bytes_to_send available in
    let h = not_ended s v open_end in
    let r = read_lem st s n v h pos in
    send_taken-Sound st s (ByteStream.read s.stream n).1 (ByteStream.read s.stream n).0 v
      (unfold ByteStream.read in pop_output-IsValid s.stream n v.stream_valid)
      (r.0 ∙ ap (slice st (s.next_seqno - 1)) (sym r.1))
      (r.2 ∙ ap₂ (λ a b. slice st (s.next_seqno + a - 1) b) (sym r.1) (sym r.3))
      (omega (arith, r.1, ap (λ b. s.next_seqno + length s.stream.buffer + (if b then 0 else 1)) h))
      _ h (λ e. (and_parts _ _ e).1)
