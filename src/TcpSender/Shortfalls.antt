-- ===== src/TcpSender/Shortfalls.antt =====
-- Where `fill_window` uses more than the window: after the receiver has shrunk it, and for a FIN that
-- rides on the last data.
use csed353_computer_network.Prelude.{
  ℕ, zero, suc, ◌+◌, ◌^◌, ◌<◌, ◌≤◌, ◌≡◌, ◌≢◌, min, refl, ap, sym, ◌∙◌, Bool, true, false, arith,
  length, if◌then◌else◌, lt→ltb, and_true, [], ◌∷◌, ◌++◌, subst, take_all,
}
use csed353_computer_network.ByteStream
use csed353_computer_network.ByteStream.Accounting.{pop_output-eof, length-zero}
use csed353_computer_network.TcpSender.{
  TcpSender, numbered, bytes_to_send, transmit, send_fin, fill_round, fill_loop, loop_fuel,
  fill_window, available_window, effective_window,
}
use csed353_computer_network.TcpSender.Chain.{Sound}
use csed353_computer_network.TcpSender.Fill.{budget, not_ended}
use csed353_computer_network.TcpSender.FillWindow.{fill_loop-Sound}
use csed353_computer_network.TcpSender.Loop.{
  fill_round-Forward, fill_round-Sound, loop_cases, round_cases, data_lengths, data_of, stream_of,
  fin_of, segment_of, read_of,
}
use csed353_computer_network.ByteStream.Refine.{peek-take}
use csed353_computer_network.TcpSegment.{TcpSegment}

-- After the SYN is acknowledged `fill_window` is its loop.
window_loop :
    (s : TcpSender)
    → 0 < s.next_seqno
    → s.next_seqno ≢ s.bytes_in_flight
    → fill_window s ≡ fill_loop (loop_fuel s) s (effective_window s)
unfolding fill_window
window_loop s pos acked = ground arith

budget_open :
    (s : TcpSender) → s.is_fin_sent ≡ false → budget s ≡ s.next_seqno + length s.stream.buffer + 1
budget_open s e = ap (λ b. s.next_seqno + length s.stream.buffer + (if b then 0 else 1)) e

sent_more :
    (st : ℕ → ℕ) (s : TcpSender)
    → Sound st s
    → budget s < 2 ^ 63
    → 0 < s.next_seqno
    → s.next_seqno ≢ s.bytes_in_flight
    → s.previous_ackno + effective_window s < s.next_seqno
    → s.stream.is_eof ≡ false
    → s.next_seqno + min 1000 (length s.stream.buffer) ≤ (fill_window s).next_seqno
sent_more st s v small pos acked shrunk open_end =
    let window = effective_window s in
    let available = available_window s window in
    let f = fill_round-Forward s window available v small in
    let v' = fill_round-Sound st s window available v small pos in
    let wide : 1000 ≤ available = omega (arith, v.flight.acked_sent) in
    let d : length (data_of s available) ≡ min 1000 (length s.stream.buffer) =
      ground (arith, data_lengths s available, wide) in
    let sent : s.next_seqno + min 1000 (length s.stream.buffer)
        ≤ (fill_round s window available).0.next_seqno =
      round_cases (λ p. s.next_seqno + min 1000 (length s.stream.buffer) ≤ p.0.next_seqno) s window
        available (λ e. absurd (ground arith)) (λ e z. ground (arith, d))
        (λ e more. unfold transmit in ground (arith, d, budget_open s (not_ended s v open_end))) in
    rw (window_loop s pos acked) (
      loop_cases (λ t. s.next_seqno + min 1000 (length s.stream.buffer) ≤ t.next_seqno)
        (suc (length s.stream.buffer)) s window (λ e. absurd (ground arith)) (λ e e'. sent)
        (λ e e'. omega (
          arith,
          sent,
          (fill_loop-Sound st (suc (length s.stream.buffer)) (fill_round s window available).0
              window v' (omega (arith, f.used)) (omega (arith, f.next))).1.next,
        )))

-- If the SYN is acknowledged, data waits in the stream, which is not over, and more is in flight than the
-- window now allows, then the available window wraps round to more than 2 ^ 63, and a sender with a
-- right account, which uses fewer than 2 ^ 63 numbers, sends yet more in `fill_window`: at least 1000
-- bytes, or all that waits.
pub fill_window_shrunk :
    (st : ℕ → ℕ) (s : TcpSender)
    → Sound st s
    → budget s < 2 ^ 63
    → 0 < s.next_seqno
    → s.next_seqno ≢ s.bytes_in_flight
    → s.previous_ackno + effective_window s < s.next_seqno
    → s.stream.is_eof ≡ false
    → 0 < length s.stream.buffer
    → (2 ^ 63 < available_window s (effective_window s))
      × (s.next_seqno < (fill_window s).next_seqno)
      × (s.next_seqno + min 1000 (length s.stream.buffer) ≤ (fill_window s).next_seqno)
fill_window_shrunk st s v small pos acked shrunk open_end waits =
    let huge : 2 ^ 63 < available_window s (effective_window s) =
      omega (arith, v.flight.acked_sent) in
    let more = sent_more st s v small pos acked shrunk open_end in (huge, omega (arith, more), more)

-- The loop does nothing once the stream is over and its FIN sent.
loop_over :
    (fuel : ℕ) (s : TcpSender) (window : ℕ)
    → s.stream.is_eof ≡ true
    → s.is_fin_sent ≡ true
    → fill_loop fuel s window ≡ s
loop_over zero s window e e' = unfold fill_loop in refl
loop_over (suc fuel) s window e e' =
    let r : fill_round s window (available_window s window) ≡ (s, false) =
      unfold fill_round send_fin in ground arith in
    loop_cases (λ t. t ≡ s) fuel s window (λ _. refl) (λ _ _. ap (λ (p : TcpSender × Bool). p.0) r)
      (λ _ goes_on.
        absurd (
          let f : true ≡ false = sym goes_on ∙ ap (λ (p : TcpSender × Bool). p.1) r in
          ground arith))

-- The last data empties the stream, and raises its end-of-file flag.
last_read :
    {st : ℕ → ℕ} (s : TcpSender) (available : ℕ)
    → Sound st s
    → s.stream.is_input_ended ≡ true
    → length s.stream.buffer ≤ available
    → length s.stream.buffer ≤ 1000
    → (stream_of s available).is_eof ≡ true
unfolding ByteStream.read
last_read s available v ended h h' =
    (pop_output-eof s.stream _ v.stream_valid ended).1
      (length-zero _ (unfold ByteStream.read in ground (arith, data_lengths s available)))

-- The sender has sent the segment, with the FIN, as its last.
abbrev pub LastSent : TcpSender → TcpSender → Type 0
LastSent s t =
    (seg : TcpSegment) × (t.segments_out ≡ s.segments_out ++ (seg ∷ []))
    × (seg.header.fin ≡ true)
    × (seg.payload ≡ s.stream.buffer)
    × (t.next_seqno ≡ s.previous_ackno + effective_window s + 1)

all_data :
    (s : TcpSender) (available : ℕ)
    → length s.stream.buffer ≤ available
    → length s.stream.buffer ≤ 1000
    → data_of s available ≡ s.stream.buffer
unfolding ByteStream.read
all_data s available h h' =
    peek-take s.stream (bytes_to_send available) ∙ take_all _ s.stream.buffer (ground arith)

-- If numbers are in flight and the SYN is acknowledged, the input has ended, and the last data, a
-- segment's worth at most, just fills what the 16-bit window has left, then a sender with a right
-- account, which uses fewer than 2 ^ 63 numbers, sends one segment, with all the data and the FIN on it,
-- which takes it one number beyond the window.
pub fill_window_fin_beyond :
    (st : ℕ → ℕ) (s : TcpSender)
    → Sound st s
    → budget s < 2 ^ 63
    → s.window_size < 2 ^ 16
    → 0 < s.next_seqno
    → s.next_seqno ≢ s.bytes_in_flight
    → s.previous_ackno < s.next_seqno
    → s.next_seqno + length s.stream.buffer ≡ s.previous_ackno + effective_window s
    → 0 < length s.stream.buffer
    → length s.stream.buffer ≤ 1000
    → s.stream.is_input_ended ≡ true
    → s.stream.is_eof ≡ false
    → LastSent s (fill_window s)
fill_window_fin_beyond st s v small hw pos acked flying fits some few ended open_end =
    let window = effective_window s in
    let available = available_window s window in
    let room : available ≡ length s.stream.buffer = omega (arith, v.flight.acked_sent) in
    let d : length (data_of s available) ≡ length s.stream.buffer =
      ground (arith, data_lengths s available, room) in
    let data' = all_data s available (omega (arith, room)) few in
    let over = last_read s available v ended (omega (arith, room)) few in
    let fin : fin_of s window available ≡ true =
      and_true _ _ (lt→ltb _ _ (ground (arith, d))) over in
    let first : ((fill_round s window available).1 ≡ true)
        × LastSent s (fill_round s window available).0
        × ((fill_round s window available).0.stream.is_eof ≡ true)
        × ((fill_round s window available).0.is_fin_sent ≡ true) =
      round_cases
        (λ p. (p.1 ≡ true) × LastSent s p.0 × (p.0.stream.is_eof ≡ true) × (p.0.is_fin_sent ≡ true))
        s window available (λ e. absurd (ground arith)) (λ e z. absurd (omega (arith, d)))
        (λ e more.
          unfold transmit in
          (
            refl,
            (
              numbered (read_of s window available) (segment_of s window available),
              refl,
              fin,
              data',
              rw fin (omega (arith, d, budget_open s (not_ended s v open_end))),
            ),
            over,
            rw fin refl,
          )) in
    rw (window_loop s pos acked) (
      loop_cases (LastSent s) (suc (length s.stream.buffer)) s window
        (λ e. absurd (ground (arith, room))) (λ e last. first.1)
        (λ e more.
          subst (LastSent s)
            (sym (
              loop_over (suc (length s.stream.buffer)) (fill_round s window available).0 window
                first.2 first.3))
            first.1))
