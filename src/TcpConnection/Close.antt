-- ===== src/TcpConnection/Close.antt =====
-- How time ends a connection, in `tick` of libsponge/tcp_connection.cc: too many retransmissions in a
-- row, or the end of the lingering after a clean shutdown.
use csed353_computer_network.Prelude.{
  ℕ, ◌+◌, ◌*◌, ◌<◌, ◌≤◌, ◌≡◌, ◌≢◌, ◌↔◌, refl, ap, ap₂, ◌∙◌, true, false, List, [], ◌∷◌, ◌++◌, map,
  arith, add64, u64_mod,
}
use native.Mathlib.Decide.{dec_lt}
use csed353_computer_network.ByteStream
use csed353_computer_network.TcpReceiver
use csed353_computer_network.TcpSender
use csed353_computer_network.TcpSender.{TcpSender, front}
use csed353_computer_network.TcpSender.Timer
use csed353_computer_network.TcpSender.Timer.{RetransmissionTimer}
use csed353_computer_network.TcpSender.Resend.{total}
use csed353_computer_network.TcpConnection.{
  TcpConnection, stamped, flush_sender, shut_down, tick, inbound_ended,
}
use csed353_computer_network.TcpConnection.Flush.{
  flush_sender_lem, flush_sender-segments_out, flushed,
}
use csed353_computer_network.TcpConnection.Lifecycle.{
  ticked, tick_cases, reset_segment, send_rst-is_active, flush_sender-is_active, tick-inactive,
}

-- What the sender does when its timer expires and the window is open.
sender_expired :
    (c : TcpConnection) (ms : ℕ)
    → c.sender.retx_timer.is_running ≡ true
    → c.sender.retx_timer.rto ≤ c.sender.retx_timer.t + ms
    → c.sender.retx_timer.t + ms < u64_mod
    → c.sender.window_size ≢ 0
    → c.sender.consecutive_retransmissions ≤ 8
    → ((TcpSender.tick c.sender ms).consecutive_retransmissions
        ≡ c.sender.consecutive_retransmissions + 1)
      × ((TcpSender.tick c.sender ms).segments_out
          ≡ c.sender.segments_out ++ front c.sender.outstanding_segments)
      × (reset_segment (ticked c ms) ≡ reset_segment c)
unfolding TcpSender.tick TcpSender.retransmit Timer.tick
sender_expired c ms run over small nonzero few = ground arith

shut_down-outbound :
    (c : TcpConnection)
    → ((shut_down c).sender ≡ c.sender)
      × ((shut_down c).receiver ≡ c.receiver)
      × ((shut_down c).segments_out ≡ c.segments_out)
shut_down-outbound c = ground arith

-- When the sender's timer is running and expires, at a time below 2 ^ 64, the window is open, and
-- there were fewer than 8 retransmissions in a row, then the endpoint sends what its sender has
-- queued and then the oldest outstanding segment again, if there is one, stamped by the receiver.
pub tick_retransmits :
    (c : TcpConnection) (ms : ℕ)
    → c.sender.retx_timer.is_running ≡ true
    → c.sender.retx_timer.rto ≤ c.sender.retx_timer.t + ms
    → c.sender.retx_timer.t + ms < u64_mod
    → c.sender.window_size ≢ 0
    → c.sender.consecutive_retransmissions < 8
    → (tick c ms).segments_out
      ≡ c.segments_out
        ++ map (stamped c.receiver) (c.sender.segments_out ++ front c.sender.outstanding_segments)
tick_retransmits c ms run over small nonzero fewer =
    let e = sender_expired c ms run over small nonzero (omega arith) in
    let s = shut_down-outbound (ticked c ms) in
    tick_cases
      (λ (d : TcpConnection).
        d.segments_out
        ≡ c.segments_out
          ++ map (stamped c.receiver)
              (c.sender.segments_out ++ front c.sender.outstanding_segments))
      c ms (λ more. absurd (omega (arith, e.0)))
      (λ _.
        flush_sender-segments_out (shut_down (ticked c ms))
        ∙ ap₂ (λ out queue. out ++ map (stamped (shut_down (ticked c ms)).receiver) queue) s.2
            (ap (λ (d : TcpSender). d.segments_out) s.0 ∙ e.1)
        ∙ ap
            (λ r.
              c.segments_out
              ++ map (stamped r) (c.sender.segments_out ++ front c.sender.outstanding_segments))
            s.1)

-- While an endpoint lingers: both streams have ended, the FIN is acknowledged, and nothing is left to
-- retransmit.
pub record Lingers (c : TcpConnection) : Type 0 where
  pub is_active : c.is_active ≡ true
  pub inbound_over : inbound_ended c ≡ true
  pub outbound_over : c.is_fin_acked ≡ true
  pub peer_last : c.linger_after_streams_finish ≡ true
  pub idle : c.sender.retx_timer.is_running ≡ false
  pub few : c.sender.consecutive_retransmissions ≤ 8

abbrev pub ticks : TcpConnection → List ℕ → TcpConnection
ticks c [] = c
ticks c (ms ∷ rest) = ticks (tick c ms) rest

idle_tick : (s : TcpSender) (ms : ℕ) → s.retx_timer.is_running ≡ false → TcpSender.tick s ms ≡ s
unfolding TcpSender.tick Timer.tick
idle_tick s ms h = rw h refl

-- The endpoint after `ms` of lingering.
abbrev waited : TcpConnection → ℕ → TcpConnection
waited c ms =
    flushed
      (record c { time_since_last_segment_received = c.time_since_last_segment_received + ms })
      c.sender.segments_out

linger_on :
    (c : TcpConnection) (ms : ℕ)
    → Lingers c
    → c.time_since_last_segment_received + ms < u64_mod
    → c.time_since_last_segment_received + ms < 10 * c.cfg.rt_timeout
    → tick c ms ≡ waited c ms
linger_on c ms l small early =
    let later : TcpConnection = record c {
      time_since_last_segment_received = c.time_since_last_segment_received + ms;
    } in
    let time : ticked c ms ≡ later =
      ap₂ (λ s t. record c { sender = s; time_since_last_segment_received = t })
        (idle_tick c.sender ms l.idle)
        (let e : add64 c.time_since_last_segment_received ms
              ≡ c.time_since_last_segment_received + ms =
            omega arith in
          e) in
    let waits : shut_down later ≡ later = ground arith in
    tick_cases (λ d. d ≡ waited c ms) c ms
      (λ more. absurd (
        omega (
          arith,
          l.few,
          ap (λ (s : TcpSender). s.consecutive_retransmissions) (idle_tick c.sender ms l.idle),
        )))
      (λ _.
        ap (λ d. flush_sender (shut_down d)) time ∙ ap flush_sender waits ∙ flush_sender_lem later)

linger_over :
    (c : TcpConnection) (ms : ℕ)
    → Lingers c
    → c.time_since_last_segment_received + ms < u64_mod
    → 10 * c.cfg.rt_timeout ≤ c.time_since_last_segment_received + ms
    → (tick c ms).is_active ≡ false
linger_over c ms l small late =
    tick_cases (λ (d : TcpConnection). d.is_active ≡ false) c ms
      (λ _. send_rst-is_active (ticked c ms))
      (λ _. flush_sender-is_active (shut_down (ticked c ms)) ∙ ground arith)

waited-Lingers : (c : TcpConnection) (ms : ℕ) → Lingers c → Lingers (waited c ms)
waited-Lingers c ms l = record {
  is_active = l.is_active;
  inbound_over = l.inbound_over;
  outbound_over = l.outbound_over;
  peer_last = l.peer_last;
  idle = l.idle;
  few = l.few;
}

ticks-inactive :
    (c : TcpConnection) (mss : List ℕ) → c.is_active ≡ false → (ticks c mss).is_active ≡ false
ticks-inactive c [] h = h
ticks-inactive c (ms ∷ rest) h = ticks-inactive (tick c ms) rest (tick-inactive c ms h)

-- If nothing is received, a lingering endpoint, which has waited for less than ten times the
-- initial timeout, is active for as long as less than that has passed since the last segment, and
-- inactive from then on, however the time, below 2 ^ 64, is divided into ticks.
pub ticks_linger :
    (c : TcpConnection) (mss : List ℕ)
    → Lingers c
    → c.time_since_last_segment_received < 10 * c.cfg.rt_timeout
    → c.time_since_last_segment_received + total mss < u64_mod
    → ((ticks c mss).is_active ≡ true)
      ↔ (c.time_since_last_segment_received + total mss < 10 * c.cfg.rt_timeout)
ticks_linger c [] l early small = (λ _. omega (arith, early), λ _. l.is_active)
ticks_linger c (ms ∷ rest) l early small =
    elim (dec_lt (c.time_since_last_segment_received + ms) (10 * c.cfg.rt_timeout)) [
      | yes on ↦
          let e = linger_on c ms l (omega arith) on in
          let ih = ticks_linger (waited c ms) rest (waited-Lingers c ms l) on (omega arith) in
          rw (e, ticks) (λ h. omega (arith, ih.0 h), λ h. ih.1 (omega arith))
      | no over ↦
          let dead =
            ticks-inactive (tick c ms) rest (linger_over c ms l (omega arith) (omega arith)) in
          (λ h. absurd (ground arith), λ h. absurd (omega arith))
    ]
