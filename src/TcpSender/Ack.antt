-- ===== src/TcpSender/Ack.antt =====
-- `ack_received`: what is acknowledged leaves the account, and nothing else does.
use csed353_computer_network.Prelude.{
  ℕ, ◌+◌, ◌-◌, ◌^◌, ◌<◌, ◌≤◌, ◌≡◌, ◌⊎◌, ap, ◌∙◌, subst, List, [], ◌∷◌, arith, u32_mod, add64, sub64,
  ltb, leb, if_elim,
}
use csed353_computer_network.WrappingIntegers.{WrappingInt32, unwrap}
use csed353_computer_network.WrappingIntegers.Nearest.{unwrap-wrap}
use csed353_computer_network.TcpSegment.{TcpSegment, length_in_sequence_space}
use csed353_computer_network.TcpSender.{
  TcpSender, drop_acked, acknowledge, settle_timer, ack_received,
}
use csed353_computer_network.TcpSender.Chain.{Chain, Chain-span, Sound, frame-Sound}
use csed353_computer_network.TcpSender.Fill.{budget}
use csed353_computer_network.TcpSender.FillWindow.{fill_window-Sound}

-- The first segment left, if there is one, is not acknowledged to its end.
abbrev pub FrontOpen : ℕ → ℕ → List TcpSegment → Type 0
FrontOpen ackno a [] = Unit {0}
FrontOpen ackno a (seg ∷ segs) = ackno < a + length_in_sequence_space seg

-- What `drop_acked` leaves of segments that cover the numbers up to `b`.
pub record Dropped (st : ℕ → ℕ) (isn : WrappingInt32) (ackno b in_flight : ℕ)
    (left : List TcpSegment × ℕ) : Type 0 where
  pub rest : Chain st isn (b - left.1) left.0 b
  pub fewer : left.1 ≤ in_flight
  pub unacked : b ≤ ackno + left.1
  pub front : FrontOpen ackno (b - left.1) left.0

dropped_lem :
    (st : ℕ → ℕ) (isn : WrappingInt32) (ackno a b in_flight : ℕ) (segs : List TcpSegment)
    → isn < u32_mod
    → Chain st isn a segs b
    → a + in_flight ≡ b
    → a ≤ ackno
    → ackno ≤ b
    → b < 2 ^ 63
    → in_flight < 2 ^ 31
    → Dropped st isn ackno b in_flight (drop_acked isn ackno segs in_flight)
unfolding drop_acked
dropped_lem st isn ackno a b in_flight [] hi c e h h' small few = record {
  rest = omega (arith, c);
  fewer = omega arith;
  unacked = omega arith;
  front = tt;
}
dropped_lem st isn ackno a b in_flight (seg ∷ segs) hi c e h h' small few =
    let len = length_in_sequence_space seg in
    let cover = Chain-span st isn (a + len) b segs c.3 in
    let at_seg : unwrap seg.header.seqno isn ackno ≡ a =
      ap (λ k. unwrap k isn ackno) c.0 ∙ unwrap-wrap a isn ackno hi (omega arith) (omega arith) in
    let start : a ≡ b - in_flight = omega arith in
    if_elim (Dropped st isn ackno b in_flight)
      (leb (add64 (unwrap seg.header.seqno isn ackno) len) ackno) _ _
      (λ acked.
        let ih =
          dropped_lem st isn ackno (a + len) b (sub64 in_flight len) segs hi c.3
            (omega (arith, cover)) (ground (arith, at_seg, cover)) h' small
            (omega (arith, cover)) in
        record {
          rest = ih.rest;
          fewer = omega (arith, ih.fewer, cover);
          unacked = ih.unacked;
          front = ih.front;
        })
      (λ open_front. record {
        rest = subst (λ k. Chain st isn k (seg ∷ segs) b) start c;
        fewer = omega arith;
        unacked = omega arith;
        front = ground (arith, at_seg, cover, start);
      })

-- An acknowledgment of new data, before the window is filled again.
acknowledge-Sound :
    (st : ℕ → ℕ) (s : TcpSender) (ackno : ℕ)
    → Sound st s
    → s.previous_ackno < ackno
    → ackno ≤ s.next_seqno
    → s.next_seqno < 2 ^ 63
    → s.bytes_in_flight < 2 ^ 31
    → Sound st (acknowledge s ackno)
unfolding acknowledge
acknowledge-Sound st s ackno v newer sent small few =
    let f = v.flight in
    let d =
      dropped_lem st s.isn ackno (s.next_seqno - s.bytes_in_flight) s.next_seqno s.bytes_in_flight
        s.outstanding_segments f.isn_range f.chain (omega (arith, f.in_flight_sent))
        (omega (arith, f.oldest)) sent small few in
    record {
      flight = record {
        isn_range = f.isn_range;
        acked_sent = sent;
        in_flight_sent = omega (arith, d.fewer, f.in_flight_sent);
        oldest = d.unacked;
        chain = d.rest;
      };
      stream_valid = v.stream_valid;
      pending = v.pending;
      fin_at_end = v.fin_at_end;
    }

-- An acknowledgment of new data, with fewer than 2 ^ 31 numbers in flight and fewer than 2 ^ 63
-- used, takes every segment that it covers whole out of the queue of a sender with a right account:
-- the first one left, if any, has a number that is not acknowledged, and what is left covers the
-- rest up to the next number.
pub acknowledge_drops :
    (st : ℕ → ℕ) (s : TcpSender) (ackno : ℕ)
    → Sound st s
    → s.previous_ackno < ackno
    → ackno ≤ s.next_seqno
    → s.next_seqno < 2 ^ 63
    → s.bytes_in_flight < 2 ^ 31
    → let s' = acknowledge s ackno in
      FrontOpen ackno (s'.next_seqno - s'.bytes_in_flight) s'.outstanding_segments
      × Chain st s'.isn (s'.next_seqno - s'.bytes_in_flight) s'.outstanding_segments s'.next_seqno
unfolding acknowledge
acknowledge_drops st s ackno v newer sent small few =
    let f = v.flight in
    let d =
      dropped_lem st s.isn ackno (s.next_seqno - s.bytes_in_flight) s.next_seqno s.bytes_in_flight
        s.outstanding_segments f.isn_range f.chain (omega (arith, f.in_flight_sent))
        (omega (arith, f.oldest)) sent small few in
    (d.front, d.rest)

settle-Sound : (st : ℕ → ℕ) (s : TcpSender) → Sound st s → Sound st (settle_timer s)
settle-Sound st s v =
    frame-Sound st s s.segments_out _ s.consecutive_retransmissions s.window_size v

windowed-Sound :
    (st : ℕ → ℕ) (s : TcpSender) (window : ℕ)
    → Sound st s
    → Sound st (record s { window_size = window })
windowed-Sound st s window v =
    frame-Sound st s s.segments_out s.retx_timer s.consecutive_retransmissions window v

-- Whatever acknowledgment arrives, old, new or impossible, and whatever window it announces, the
-- sender's account of what is in flight stays right, if fewer than 2 ^ 31 numbers are in flight and
-- fewer than 2 ^ 63 are ever used.
pub ack_received-Sound :
    (st : ℕ → ℕ) (s : TcpSender) (ackno : WrappingInt32) (window : ℕ)
    → Sound st s
    → budget s + 1 < 2 ^ 63
    → s.bytes_in_flight < 2 ^ 31
    → Sound st (ack_received s ackno window)
unfolding ack_received
ack_received-Sound st s ackno window v small few =
    let unwrapped = unwrap ackno s.isn s.previous_ackno in
    let v' = windowed-Sound st s window v in
    if_elim (Sound st) (ltb s.next_seqno unwrapped) _ _ (λ e. v')
      (λ e.
        if_elim (Sound st) (leb unwrapped s.previous_ackno) _ _ (λ old. v')
          (λ newer. settle-Sound st _ (
            fill_window-Sound st _
              (acknowledge-Sound st (record s { window_size = window }) unwrapped v' (ground arith)
                (ground arith) (omega arith) few)
              (unfold acknowledge in omega arith))))

-- An acknowledgment of a number that was never sent, or of nothing new, changes only the window: no
-- segment leaves the queue, none is sent, and the timer and its count stay.
pub ack_received-ignored :
    (s : TcpSender) (ackno : WrappingInt32) (window : ℕ)
    → (s.next_seqno < unwrap ackno s.isn s.previous_ackno)
      ⊎ (unwrap ackno s.isn s.previous_ackno ≤ s.previous_ackno)
    → ack_received s ackno window ≡ record s { window_size = window }
unfolding ack_received
ack_received-ignored s ackno window h = ground arith
