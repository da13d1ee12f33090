-- ===== src/TcpSender/Backoff.antt =====
-- Exponential backoff: the timeout goes with the number of consecutive retransmissions.
use csed353_computer_network.Prelude.{
  ℕ, zero, suc, ◌+◌, ◌*◌, ◌%◌, ◌<◌, ◌≡◌, inl, inr, refl, ap, ap₂, sym, ◌∙◌, ◌&&◌, arith, add32,
  u32_mod, u64_mod, ltb, leb, ◌==◌, Bool-cases, if_elim,
}
use csed353_computer_network.WrappingIntegers.{WrappingInt32, unwrap}
use csed353_computer_network.TcpSender.Timer
use csed353_computer_network.TcpSender.Timer.{RetransmissionTimer}
use csed353_computer_network.TcpSender.{
  TcpSender, transmit, send_fin, fill_round, fill_loop, loop_fuel, fill_window, available_window,
  effective_window, acknowledge, ack_received, retransmit, tick, send_empty_segment, settle_timer,
}
use csed353_computer_network.TcpSender.Loop.{loop_cases, round_cases}

-- `n` doubled `k` times, as a `size_t`.
unfoldable pub backoff : ℕ → ℕ → ℕ
backoff n zero = n
backoff n (suc k) = backoff n k * 2 % u64_mod

-- The timeout is the initial one, doubled for each consecutive retransmission.
pub record BackedOff (s : TcpSender) : Type 0 where
  pub timeout : s.retx_timer.rto ≡ backoff s.retx_timer.init_rto s.consecutive_retransmissions

-- What of the timer and its count a sender's step leaves alone.
record SameBackoff (s s' : TcpSender) : Type 0 where
  rto : s'.retx_timer.rto ≡ s.retx_timer.rto
  init_rto : s'.retx_timer.init_rto ≡ s.retx_timer.init_rto
  count : s'.consecutive_retransmissions ≡ s.consecutive_retransmissions

round-SameBackoff :
    (s : TcpSender) (window available : ℕ) → SameBackoff s (fill_round s window available).0
round-SameBackoff s window available =
    round_cases (λ p. SameBackoff s p.0) s window available
      (λ e. unfold send_fin transmit Timer.start in ground arith) (λ e z. omega arith)
      (λ e pos. unfold transmit Timer.start in omega arith)

loop-SameBackoff : (fuel : ℕ) (s : TcpSender) (window : ℕ) → SameBackoff s (fill_loop fuel s window)
loop-SameBackoff zero s window = unfold fill_loop in omega arith
loop-SameBackoff (suc fuel) s window =
    let available = available_window s window in
    let r = round-SameBackoff s window available in
    let ih = loop-SameBackoff fuel (fill_round s window available).0 window in
    loop_cases (SameBackoff s) fuel s window (λ e. omega arith) (λ e e'. r)
      (λ e e'. omega (arith, r, ih))

fill_window-SameBackoff : (s : TcpSender) → SameBackoff s (fill_window s)
unfolding fill_window
fill_window-SameBackoff s =
    if_elim (SameBackoff s) (s.next_seqno == 0) _ _
      (λ e. unfold transmit Timer.start in omega arith)
      (λ ne.
        if_elim (SameBackoff s) (ltb 0 s.next_seqno && (s.next_seqno == s.bytes_in_flight)) _ _
          (λ e. omega arith) (λ e. loop-SameBackoff (loop_fuel s) s (effective_window s)))

backoff_step :
    (t : RetransmissionTimer) (count : ℕ)
    → t.rto ≡ backoff t.init_rto count
    → count + 1 < u32_mod
    → (Timer.double_rto t).rto ≡ backoff (Timer.double_rto t).init_rto (add32 count 1)
unfolding Timer.double_rto backoff
backoff_step t count h small =
    ap (λ k. k * 2 % u64_mod) h
    ∙ ap (backoff t.init_rto) (let e : suc count ≡ add32 count 1 = omega arith in e)

tick_timer :
    (t : RetransmissionTimer) (ms : ℕ)
    → ((Timer.tick t ms).0.rto ≡ t.rto) × ((Timer.tick t ms).0.init_rto ≡ t.init_rto)
unfolding Timer.tick
tick_timer t ms = ground arith

same-BackedOff : (s s' : TcpSender) → SameBackoff s s' → BackedOff s → BackedOff s'
same-BackedOff s s' b h = record {
  timeout = b.rto ∙ h.timeout ∙ ap₂ backoff (sym b.init_rto) (sym b.count);
}

settle-SameBackoff : (s : TcpSender) → SameBackoff s (settle_timer s)
unfolding Timer.start Timer.stop
settle-SameBackoff s = ground arith

acknowledge-BackedOff : (s : TcpSender) (ackno : ℕ) → BackedOff (acknowledge s ackno)
unfolding acknowledge Timer.start Timer.stop Timer.set_rto_init backoff
acknowledge-BackedOff s ackno = record { timeout = refl }

timer-BackedOff :
    (s : TcpSender) (t : RetransmissionTimer)
    → t.rto ≡ s.retx_timer.rto
    → t.init_rto ≡ s.retx_timer.init_rto
    → BackedOff s
    → BackedOff (record s { retx_timer = t })
timer-BackedOff s t e e' h = record {
  timeout = e ∙ h.timeout ∙ ap (λ n. backoff n s.consecutive_retransmissions) (sym e');
}

retransmit-BackedOff :
    (s : TcpSender)
    → BackedOff s
    → s.consecutive_retransmissions + 1 < u32_mod
    → BackedOff (retransmit s)
unfolding retransmit Timer.start Timer.stop
retransmit-BackedOff s h small = elim (Bool-cases (s.window_size == 0)) [
  | inl e ↦ record { timeout = rw e (h.timeout) }
  | inr e ↦ record {
    timeout = rw e (backoff_step s.retx_timer s.consecutive_retransmissions h.timeout small);
  }
]

-- The calls that a sender's owner makes.
pub data Call : Type 0 where
  fills : Call
  acks : WrappingInt32 → ℕ → Call
  ticks : ℕ → Call
  empties : Call

abbrev pub step : TcpSender → Call → TcpSender
step s fills = fill_window s
step s (acks ackno window) = ack_received s ackno window
step s (ticks ms) = tick s ms
step s empties = send_empty_segment s

ack-BackedOff :
    (s : TcpSender) (ackno : WrappingInt32) (window : ℕ)
    → BackedOff s
    → BackedOff (ack_received s ackno window)
unfolding ack_received
ack-BackedOff s ackno window h =
    let unwrapped = unwrap ackno s.isn s.previous_ackno in
    let s' : TcpSender = record s { window_size = window } in
    let b = fill_window-SameBackoff (acknowledge s' unwrapped) in
    if_elim BackedOff (ltb s.next_seqno unwrapped) _ _ (λ e. omega (arith, h))
      (λ e.
        if_elim BackedOff (leb unwrapped s.previous_ackno) _ _ (λ old. omega (arith, h))
          (λ newer.
            same-BackedOff _ _ (settle-SameBackoff (fill_window (acknowledge s' unwrapped)))
              (same-BackedOff _ _ b (acknowledge-BackedOff s' unwrapped))))

tick-BackedOff :
    (s : TcpSender) (ms : ℕ)
    → BackedOff s
    → s.consecutive_retransmissions + 1 < u32_mod
    → BackedOff (tick s ms)
unfolding tick
tick-BackedOff s ms h small =
    let e = tick_timer s.retx_timer ms in
    let s' : TcpSender = record s { retx_timer = (Timer.tick s.retx_timer ms).0 } in
    let h' = timer-BackedOff s (Timer.tick s.retx_timer ms).0 e.0 e.1 h in
    if_elim BackedOff (Timer.tick s.retx_timer ms).1 (retransmit s') s'
      (λ _. retransmit-BackedOff s' h' small) (λ _. h')

-- Whatever the owner calls, the timeout stays the initial one doubled once for each consecutive
-- retransmission, if one more of them still fits an `unsigned int`.
pub step-BackedOff :
    (s : TcpSender) (c : Call)
    → BackedOff s
    → s.consecutive_retransmissions + 1 < u32_mod
    → BackedOff (step s c)
step-BackedOff s fills h small = same-BackedOff s (fill_window s) (fill_window-SameBackoff s) h
step-BackedOff s (acks ackno window) h small = ack-BackedOff s ackno window h
step-BackedOff s (ticks ms) h small = tick-BackedOff s ms h small
step-BackedOff s empties h small = unfold send_empty_segment in record { timeout = h.timeout }
