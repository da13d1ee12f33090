-- ===== src/TcpSender/Resend.antt =====
-- The retransmission timer: when it expires, and what the passage of time leaves alone.
use csed353_computer_network.Prelude.{
  ℕ, ◌+◌, ◌<◌, ◌≤◌, ◌≡◌, ◌↔◌, refl, Bool, true, false, ◌||◌, List, [], ◌∷◌, arith, u64_mod, if_elim,
}
use csed353_computer_network.TcpSender.Timer
use csed353_computer_network.TcpSender.Timer.{RetransmissionTimer}
use csed353_computer_network.TcpSender.{TcpSender, retransmit, tick, send_empty_segment}
use csed353_computer_network.TcpSender.Chain.{Sound, frame-Sound}
use native.Mathlib.Decide.{dec_lt}

-- Whether a timer expires in one of the ticks of a list.
abbrev pub fires : RetransmissionTimer → List ℕ → Bool
fires timer [] = false
fires timer (ms ∷ rest) =
    let later = fires (Timer.tick timer ms).0 rest in (Timer.tick timer ms).1 || later

abbrev pub total : List ℕ → ℕ
total [] = 0
total (ms ∷ rest) = ms + total rest

tick_quiet :
    (timer : RetransmissionTimer) (ms : ℕ)
    → timer.is_running ≡ true
    → timer.t + ms < timer.rto
    → timer.t + ms < u64_mod
    → Timer.tick timer ms ≡ (record timer { t = timer.t + ms }, false)
unfolding Timer.tick
tick_quiet timer ms run h small = ground arith

tick_fires :
    (timer : RetransmissionTimer) (ms : ℕ)
    → timer.is_running ≡ true
    → timer.rto ≤ timer.t + ms
    → timer.t + ms < u64_mod
    → (Timer.tick timer ms).1 ≡ true
unfolding Timer.tick
tick_fires timer ms run h small = ground arith

-- A running timer that has not reached its timeout expires within a sequence of ticks exactly when
-- the time that has passed reaches it, if that time is below 2 ^ 64.
pub fires_iff :
    (timer : RetransmissionTimer) (mss : List ℕ)
    → timer.is_running ≡ true
    → timer.t < timer.rto
    → timer.t + total mss < u64_mod
    → (fires timer mss ≡ true) ↔ (timer.rto ≤ timer.t + total mss)
fires_iff timer [] run h small = ground arith
fires_iff timer (ms ∷ rest) run h small = elim (dec_lt (timer.t + ms) timer.rto) [
  | yes quiet ↦
      let ih = fires_iff (record timer { t = timer.t + ms }) rest run quiet (omega arith) in
      let e = tick_quiet timer ms run quiet (omega arith) in
      rw e (λ f. omega (arith, ih.0 f), λ g. ih.1 (omega arith))
  | no over ↦ rw (tick_fires timer ms run (omega arith) (omega arith)) (λ f. omega arith, λ g. refl)
]

-- The passage of time, with or without a retransmission, keeps the sender's account of what is in
-- flight.
pub tick-Sound : (st : ℕ → ℕ) (s : TcpSender) (ms : ℕ) → Sound st s → Sound st (tick s ms)
unfolding tick retransmit
tick-Sound st s ms v =
    if_elim (Sound st) (Timer.tick s.retx_timer ms).1 _ _
      (λ e. frame-Sound st s _ _ _ s.window_size v)
      (λ e. frame-Sound st s s.segments_out _ s.consecutive_retransmissions s.window_size v)

pub send_empty_segment-Sound :
    (st : ℕ → ℕ) (s : TcpSender) → Sound st s → Sound st (send_empty_segment s)
unfolding send_empty_segment
send_empty_segment-Sound st s v =
    frame-Sound st s _ s.retx_timer s.consecutive_retransmissions s.window_size v
