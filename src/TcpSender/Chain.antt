-- ===== src/TcpSender/Chain.antt =====
-- What is in flight: the outstanding segments cover the sequence numbers from the oldest one that is
-- not acknowledged up to the next one, without a gap, and carry the stream's bytes.
use csed353_computer_network.Prelude.{
  ℕ, ◌+◌, ◌-◌, ◌^◌, ◌<◌, ◌≤◌, ◌≡◌, refl, ap, sym, ◌∙◌, subst, true, false, List, [], ◌∷◌, ◌++◌,
  arith, length, u32_mod, add64,
}
use csed353_computer_network.WrappingIntegers.{WrappingInt32, wrap}
use csed353_computer_network.ByteStream.Accounting.{IsValid}
use csed353_computer_network.StreamReassembler.Ring.{slice}
use csed353_computer_network.TcpSegment.{TcpSegment, length_in_sequence_space}
use csed353_computer_network.TcpSender.Timer.{RetransmissionTimer}
use csed353_computer_network.TcpSender.{TcpSender, numbered, transmit}

-- The segments `segs` cover the absolute numbers from `a` up to `b`. Stream index k has the number
-- k + 1, since the SYN has the number 0.
abbrev pub Chain : (ℕ → ℕ) → WrappingInt32 → ℕ → List TcpSegment → ℕ → Type 0
Chain st isn a [] b = a ≡ b
Chain st isn a (seg ∷ rest) b =
    (seg.header.seqno ≡ wrap a isn)
    × (0 < length_in_sequence_space seg)
    × (seg.payload ≡ slice st (a - 1) (length seg.payload))
    × Chain st isn (a + length_in_sequence_space seg) rest b

pub Chain-snoc :
    (st : ℕ → ℕ) (isn : WrappingInt32) (a b : ℕ) (segs : List TcpSegment) (seg : TcpSegment)
    → Chain st isn a segs b
    → seg.header.seqno ≡ wrap b isn
    → 0 < length_in_sequence_space seg
    → seg.payload ≡ slice st (b - 1) (length seg.payload)
    → Chain st isn a (segs ++ (seg ∷ [])) (b + length_in_sequence_space seg)
Chain-snoc st isn a b [] seg c h h' h'' = (
  h ∙ ap (λ k. wrap k isn) (sym c),
  h',
  h'' ∙ ap (λ k. slice st (k - 1) (length seg.payload)) (sym c),
  ap (λ k. k + length_in_sequence_space seg) c,
)
Chain-snoc st isn a b (x ∷ segs) seg c h h' h'' =
    (c.0, c.1, c.2, Chain-snoc st isn (a + length_in_sequence_space x) b segs seg c.3 h h' h'')

-- The numbers covered by a list of segments.
abbrev pub span : List TcpSegment → ℕ
span [] = 0
span (seg ∷ rest) = length_in_sequence_space seg + span rest

pub Chain-span :
    (st : ℕ → ℕ) (isn : WrappingInt32) (a b : ℕ) (segs : List TcpSegment)
    → Chain st isn a segs b
    → a + span segs ≡ b
Chain-span st isn a b [] c = omega arith
Chain-span st isn a b (seg ∷ segs) c =
    omega (arith, Chain-span st isn (a + length_in_sequence_space seg) b segs c.3)

-- The sender's account of what is in flight.
pub record Flight (st : ℕ → ℕ) (s : TcpSender) : Type 0 where
  pub isn_range : s.isn < u32_mod
  pub acked_sent : s.previous_ackno ≤ s.next_seqno
  pub in_flight_sent : s.bytes_in_flight ≤ s.next_seqno
  pub oldest : s.next_seqno ≤ s.previous_ackno + s.bytes_in_flight
  pub chain : Chain st s.isn (s.next_seqno - s.bytes_in_flight) s.outstanding_segments s.next_seqno

-- Sending a segment with the stream's next bytes keeps the account.
pub transmit-Flight :
    (st : ℕ → ℕ) (s : TcpSender) (seg : TcpSegment)
    → Flight st s
    → 0 < length_in_sequence_space seg
    → s.next_seqno + length_in_sequence_space seg < 2 ^ 63
    → seg.payload ≡ slice st (s.next_seqno - 1) (length seg.payload)
    → Flight st (transmit s seg)
unfolding transmit
transmit-Flight st s seg f h small e =
    let next : add64 s.next_seqno (length_in_sequence_space seg)
        ≡ s.next_seqno + length_in_sequence_space seg =
      omega arith in
    let flight : add64 s.bytes_in_flight (length_in_sequence_space seg)
        ≡ s.bytes_in_flight + length_in_sequence_space seg =
      omega (arith, f.in_flight_sent) in
    let start : s.next_seqno - s.bytes_in_flight
        ≡ s.next_seqno
          + length_in_sequence_space seg
          - (s.bytes_in_flight + length_in_sequence_space seg) =
      omega arith in
    rw (next, flight)
      (record {
        isn_range = f.isn_range;
        acked_sent = omega (arith, next, f.acked_sent);
        in_flight_sent = omega (arith, next, flight, f.in_flight_sent);
        oldest = omega (arith, next, flight, f.oldest);
        chain =
            subst
              (λ a.
                Chain st s.isn a (s.outstanding_segments ++ (numbered s seg ∷ []))
                  (s.next_seqno + length_in_sequence_space seg))
              start
              (Chain-snoc st s.isn (s.next_seqno - s.bytes_in_flight) s.next_seqno
                s.outstanding_segments (numbered s seg) f.chain refl h e);
      })

-- The whole invariant of the sender, with the bytes that wait in its stream.
pub record Sound (st : ℕ → ℕ) (s : TcpSender) : Type 0 where
  pub flight : Flight st s
  pub stream_valid : IsValid s.stream
  pub pending :
      s.is_fin_sent ≡ false → s.stream.buffer ≡ slice st (s.next_seqno - 1) (length s.stream.buffer)
  pub fin_at_end : s.is_fin_sent ≡ true → s.stream.is_eof ≡ true

-- The outbound queue, the timer and its count, and the window play no part in it.
pub frame-Sound :
    (st : ℕ → ℕ) (s : TcpSender) (out : List TcpSegment) (timer : RetransmissionTimer)
    (count window : ℕ)
    → Sound st s
    → Sound st (record s {
      segments_out = out;
      retx_timer = timer;
      consecutive_retransmissions = count;
      window_size = window;
    })
frame-Sound st s out timer count window v = record {
  flight = record {
    isn_range = v.flight.isn_range;
    acked_sent = v.flight.acked_sent;
    in_flight_sent = v.flight.in_flight_sent;
    oldest = v.flight.oldest;
    chain = v.flight.chain;
  };
  stream_valid = v.stream_valid;
  pending = v.pending;
  fin_at_end = v.fin_at_end;
}
