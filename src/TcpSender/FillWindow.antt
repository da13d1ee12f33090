-- ===== src/TcpSender/FillWindow.antt =====
-- `fill_window` as a whole keeps the sender's account of what is in flight, and its loop ends.
use csed353_computer_network.Prelude.{
  ℕ, zero, suc, ◌+◌, ◌-◌, ◌^◌, ◌<◌, ◌≤◌, ◌≡◌, refl, ap, ◌∙◌, true, false, ◌&&◌, arith, length, ltb,
  ◌==◌, if_elim, add64,
}
use csed353_computer_network.TcpSender.{
  TcpSender, transmit, syn_segment, fill_round, fill_loop, loop_fuel, fill_window, available_window,
  effective_window,
}
use csed353_computer_network.StreamReassembler.Ring.{slice}
use csed353_computer_network.TcpSender.Chain.{Sound, transmit-Flight}
use csed353_computer_network.TcpSender.Fill.{budget}
use csed353_computer_network.TcpSender.Loop.{
  Forward, Forward-trans, Forward-refl, fill_round-Forward, fill_round-Sound, fill_round-left,
  loop_cases, left_to_do,
}

pub fill_loop-Sound :
    (st : ℕ → ℕ) (fuel : ℕ) (s : TcpSender) (window : ℕ)
    → Sound st s
    → budget s < 2 ^ 63
    → 0 < s.next_seqno
    → Sound st (fill_loop fuel s window) × Forward s (fill_loop fuel s window)
fill_loop-Sound st zero s window v small pos = unfold fill_loop in (v, Forward-refl s)
fill_loop-Sound st (suc fuel) s window v small pos =
    let available = available_window s window in
    let s' = (fill_round s window available).0 in
    let f = fill_round-Forward s window available v small in
    let v' = fill_round-Sound st s window available v small pos in
    let ih = fill_loop-Sound st fuel s' window v' (omega (arith, f.used)) (omega (arith, f.next)) in
    loop_cases (λ t. Sound st t × Forward s t) fuel s window (λ e. (v, Forward-refl s))
      (λ e e'. (v', f)) (λ e e'. (ih.0, Forward-trans f ih.1))

-- The runs of the loop that end by its own tests, without any fuel: the window is full, a round breaks
-- out of the loop, or a round goes on and the run from there ends.
pub data Ends (window : ℕ) : TcpSender → TcpSender → Type 0 where
  full : (s : TcpSender) → ltb 0 (available_window s window) ≡ false → Ends window s s
  breaks :
      (s : TcpSender)
      → ltb 0 (available_window s window) ≡ true
      → (fill_round s window (available_window s window)).1 ≡ false
      → Ends window s (fill_round s window (available_window s window)).0
  goes_on :
      (s t : TcpSender)
      → ltb 0 (available_window s window) ≡ true
      → (fill_round s window (available_window s window)).1 ≡ true
      → Ends window (fill_round s window (available_window s window)).0 t
      → Ends window s t

fill_loop-Ends :
    (fuel : ℕ) (s : TcpSender) (window : ℕ)
    → left_to_do s < fuel
    → Ends window s (fill_loop fuel s window)
fill_loop-Ends zero s window h = elim h [ ]
fill_loop-Ends (suc fuel) s window h =
    let s' = (fill_round s window (available_window s window)).0 in
    loop_cases (Ends window s) fuel s window (λ e. full s e) (λ e e'. breaks s e e')
      (λ e e'. goes_on s (fill_loop fuel s' window) e e' (
        fill_loop-Ends fuel s' window
          (omega (arith, fill_round-left s window (available_window s window) e'))))

-- From any sender the loop of `fill_window` ends by its own tests: a full window, or the `break` of a
-- round at the end of the stream or with nothing to send. The fuel that `fill_window` gives the loop
-- leads it to that end, and never cuts it short.
pub fill_window_terminates :
    (s : TcpSender) → Ends (effective_window s) s (fill_loop (loop_fuel s) s (effective_window s))
fill_window_terminates s = fill_loop-Ends (loop_fuel s) s (effective_window s) (ground arith)

send_syn-Sound :
    (st : ℕ → ℕ) (s : TcpSender)
    → Sound st s
    → budget s + 1 < 2 ^ 63
    → s.next_seqno ≡ 0
    → Sound st (transmit s syn_segment)
send_syn-Sound st s v small e = record {
  flight = transmit-Flight st s syn_segment v.flight (omega arith) (omega arith) refl;
  stream_valid = unfold transmit in v.stream_valid;
  pending =
      unfold transmit in
      λ h.
        v.pending h
        ∙ ap (λ k. slice st k (length s.stream.buffer))
            (let e' : s.next_seqno - 1 ≡ add64 s.next_seqno 1 - 1 = omega arith in e');
  fin_at_end = unfold transmit in v.fin_at_end;
}

send_syn-Forward :
    (s : TcpSender)
    → s.next_seqno ≡ 0
    → (s.next_seqno ≤ (transmit s syn_segment).next_seqno)
      × (budget (transmit s syn_segment) ≤ budget s + 1)
unfolding transmit
send_syn-Forward s e = (omega arith, omega arith)

-- Whatever the window, and as long as fewer than 2 ^ 63 numbers are ever used, `fill_window` keeps
-- the sender's account: afterwards the outstanding segments still cover the numbers in flight
-- without a gap, each with the stream's bytes for its place.
pub fill_window-Sound :
    (st : ℕ → ℕ) (s : TcpSender) → Sound st s → budget s + 1 < 2 ^ 63 → Sound st (fill_window s)
unfolding fill_window
fill_window-Sound st s v small =
    if_elim (Sound st) (s.next_seqno == 0) _ _ (λ e. send_syn-Sound st s v small (ground arith))
      (λ ne.
        if_elim (Sound st) (ltb 0 s.next_seqno && (s.next_seqno == s.bytes_in_flight)) _ _ (λ e. v)
          (λ e.
            (fill_loop-Sound st (loop_fuel s) s (effective_window s) v (omega arith)
              (ground arith)).0))
