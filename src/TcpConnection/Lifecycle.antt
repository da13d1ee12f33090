-- ===== src/TcpConnection/Lifecycle.antt =====
-- When an endpoint of libsponge/tcp_connection.cc is active: its death, and its revival.
use csed353_computer_network.Prelude.{
  ℕ, ◌<◌, ◌≤◌, ◌≡◌, refl, ap, ◌∙◌, true, false, List, [], ◌∷◌, ◌++◌, ltb, arith, ltb→lt, ltb→le,
  if_elim, add64,
}
use csed353_computer_network.TcpSegment.{TcpSegment, empty_segment}
use csed353_computer_network.TcpSender
use csed353_computer_network.TcpSender.{numbered}
use csed353_computer_network.TcpConnection.{
  TcpConnection, flush_sender, set_errors, send_rst, segment_received, write, shut_down, tick,
  end_input_stream,
}
use csed353_computer_network.TcpConnection.Flush.{flush_sender_lem}

-- The calls of an endpoint's owner, but for `connect`.
pub data Call : Type 0 where
  receives : TcpSegment → Call
  writes : List ℕ → Call
  ticks : ℕ → Call
  ends : Call

abbrev pub step : TcpConnection → Call → TcpConnection
step c (receives seg) = segment_received c seg
step c (writes data') = (write c data').0
step c (ticks ms) = tick c ms
step c ends = end_input_stream c

unfoldable pub run : TcpConnection → List Call → TcpConnection
run c [] = c
run c (call ∷ calls) = run (step c call) calls

-- No segment among the calls has the SYN flag.
abbrev pub NoSyn : List Call → Type 0
NoSyn [] = Unit
NoSyn (receives seg ∷ calls) = (seg.header.syn ≡ false) × NoSyn calls
NoSyn (writes data' ∷ calls) = NoSyn calls
NoSyn (ticks ms ∷ calls) = NoSyn calls
NoSyn (ends ∷ calls) = NoSyn calls

pub flush_sender-is_active : (c : TcpConnection) → (flush_sender c).is_active ≡ c.is_active
flush_sender-is_active c = ap (λ (d : TcpConnection). d.is_active) (flush_sender_lem c)

-- The reset segment that `send_rst` puts in the queue.
abbrev pub reset_segment : TcpConnection → TcpSegment
reset_segment c =
    let seg = numbered c.sender empty_segment in
    record seg { header = record (seg.header) { rst = true } }

pub send_rst_lem :
    (c : TcpConnection)
    → send_rst c ≡ record (set_errors c) {
      sender = record ((set_errors c).sender) { segments_out = [] };
      segments_out = c.segments_out ++ (reset_segment c ∷ []);
      is_active = false;
    }
unfolding send_rst TcpSender.send_empty_segment
send_rst_lem c = refl

pub send_rst-is_active : (c : TcpConnection) → (send_rst c).is_active ≡ false
send_rst-is_active c = ap (λ (d : TcpConnection). d.is_active) (send_rst_lem c)

shut_down-inactive : (c : TcpConnection) → c.is_active ≡ false → (shut_down c).is_active ≡ false
shut_down-inactive c h = ground arith

-- The endpoint after `tick` has passed the time on to its sender.
abbrev pub ticked : TcpConnection → ℕ → TcpConnection
ticked c ms = record c {
  time_since_last_segment_received = add64 c.time_since_last_segment_received ms;
  sender = TcpSender.tick c.sender ms;
}

-- A property of `tick`, for an endpoint that gives up and for one that goes on.
pub tick_cases {κ} :
    (P : TcpConnection → Type κ) (c : TcpConnection) (ms : ℕ)
    → (8 < (TcpSender.tick c.sender ms).consecutive_retransmissions → P (send_rst (ticked c ms)))
    → ((TcpSender.tick c.sender ms).consecutive_retransmissions ≤ 8
        → P (flush_sender (shut_down (ticked c ms))))
    → P (tick c ms)
unfolding tick
tick_cases P c ms over under =
    let count = (TcpSender.tick c.sender ms).consecutive_retransmissions in
    if_elim P (ltb 8 count) (send_rst (ticked c ms)) (flush_sender (shut_down (ticked c ms)))
      (λ e. over (ltb→lt 8 count e)) (λ e. under (ltb→le 8 count e))

pub tick-inactive :
    (c : TcpConnection) (ms : ℕ) → c.is_active ≡ false → (tick c ms).is_active ≡ false
tick-inactive c ms h =
    tick_cases (λ (d : TcpConnection). d.is_active ≡ false) c ms
      (λ e. send_rst-is_active (ticked c ms))
      (λ e. flush_sender-is_active (shut_down (ticked c ms)) ∙ shut_down-inactive (ticked c ms) h)

receive-inactive :
    (c : TcpConnection) (seg : TcpSegment)
    → seg.header.syn ≡ false
    → c.is_active ≡ false
    → (segment_received c seg).is_active ≡ false
unfolding segment_received
receive-inactive c seg e h = ground arith

-- An endpoint that is not active stays so whatever its owner does, short of calling `connect`, and
-- whatever it receives, short of a SYN.
pub run-inactive :
    (c : TcpConnection) (calls : List Call)
    → NoSyn calls
    → c.is_active ≡ false
    → (run c calls).is_active ≡ false
unfolding run
run-inactive c [] no_syn h = h
run-inactive c (receives seg ∷ calls) no_syn h =
    run-inactive (segment_received c seg) calls no_syn.1 (receive-inactive c seg no_syn.0 h)
run-inactive c (writes data' ∷ calls) no_syn h =
    run-inactive (write c data').0 calls no_syn (unfold write in flush_sender-is_active _ ∙ h)
run-inactive c (ticks ms ∷ calls) no_syn h =
    run-inactive (tick c ms) calls no_syn (tick-inactive c ms h)
run-inactive c (ends ∷ calls) no_syn h =
    run-inactive (end_input_stream c) calls no_syn
      (unfold end_input_stream in flush_sender-is_active _ ∙ h)
