-- ===== src/TcpReceiver/Tracks.antt =====
-- The receiver follows the peer's byte stream: sequence numbers are turned back into stream indices.
use csed353_computer_network.Prelude.{
  ℕ, ◌+◌, ◌^◌, ◌<◌, ◌≡◌, refl, ap, ap₂, sym, ◌∙◌, true, false, none, some, arith, u32_mod, ◌==◌,
  if◌then◌else◌, add64, sub64, subst,
}
use csed353_computer_network.WrappingIntegers.{WrappingInt32, wrap, unwrap}
use csed353_computer_network.WrappingIntegers.Nearest.{dist, unwrap-wrap}
use csed353_computer_network.StreamReassembler.{push_substring}
use csed353_computer_network.StreamReassembler.Store.{Excerpt}
use csed353_computer_network.StreamReassembler.InStep.{room, InStep, Admissible}
use csed353_computer_network.StreamReassembler.Push.{push_substring-InStep}
use csed353_computer_network.TcpSegment.{TcpSegment}
use csed353_computer_network.TcpReceiver.{
  TcpReceiver, segment_received, push_segment, receive_with, stream_out, ackno, abs_ackno,
  window_size,
}

-- A segment that is no SYN leaves a receiver that has seen no SYN as it was.
pub segment_received-before_syn :
    (r : TcpReceiver) (seg : TcpSegment)
    → r.isn ≡ none
    → seg.header.syn ≡ false
    → (segment_received r seg ≡ r) × (ackno r ≡ none)
unfolding segment_received ackno
segment_received-before_syn r seg h h' = (ap (λ o. receive_with o r seg) h ∙ rw h', rw h)

-- The receiver knows the peer's initial sequence number, and its reassembler is in step with the
-- peer's stream.
pub record Tracks (s : ℕ → ℕ) (isn : WrappingInt32) (r : TcpReceiver) : Type 0 where
  pub known : r.isn ≡ some isn
  pub range : isn < u32_mod
  pub in_step : InStep s r.reassembler

-- A segment of the peer's: its sequence number stands for stream index `index`, which is less than
-- 2 ^ 31 away from the next byte, and its payload is what the stream has there.
pub record Carries (s : ℕ → ℕ) (isn : WrappingInt32) (r : TcpReceiver) (seg : TcpSegment)
    (index : ℕ) : Type 0 where
  pub numbered : seg.header.seqno ≡ wrap (index + 1) isn
  pub near : dist (index + 1) (r.reassembler.first_unassembled_index + 1) < 2 ^ 31
  pub admissible : Admissible r.reassembler seg.payload index
  pub excerpt : Excerpt s seg.payload index

known_lem :
    (isn : WrappingInt32) (r : TcpReceiver) (seg : TcpSegment)
    → r.isn ≡ some isn
    → segment_received r seg ≡ push_segment r isn seg
unfolding segment_received
known_lem isn r seg h = ap (λ o. receive_with o r seg) h

seqno_lem :
    (s : ℕ → ℕ) (isn : WrappingInt32) (r : TcpReceiver) (seg : TcpSegment) (index : ℕ)
    → Tracks s isn r
    → Carries s isn r seg index
    → unwrap seg.header.seqno isn (add64 (stream_out r).total_written_bytes 1) ≡ index + 1
seqno_lem s isn r seg index t c =
    let e : add64 (stream_out r).total_written_bytes 1 ≡ r.reassembler.first_unassembled_index + 1 =
      omega (arith, t.in_step.written, t.in_step.sizes.small) in
    ap₂ (λ n k. unwrap n isn k) c.numbered e
    ∙ unwrap-wrap (index + 1) isn (r.reassembler.first_unassembled_index + 1) t.range c.near
        (omega (arith, t.in_step.sizes.small))

-- A receiver that follows the stream turns the sequence number of a segment that carries its bytes,
-- from an index inside the window on, back into that index, and pushes the payload there.
pub segment_received-index :
    (s : ℕ → ℕ) (isn : WrappingInt32) (r : TcpReceiver) (seg : TcpSegment) (index : ℕ)
    → Tracks s isn r
    → Carries s isn r seg index
    → segment_received r seg
      ≡ record r { reassembler = push_substring r.reassembler seg.payload index seg.header.fin }
unfolding push_segment
segment_received-index s isn r seg index t c =
    let data_follows : (index + 1 == 0) ≡ false = ground arith in
    let e : sub64 (index + 1) 1 ≡ index = omega (arith, c.admissible.small_index) in
    known_lem isn r seg t.known ∙ rw (seqno_lem s isn r seg index t c, data_follows, e)

-- Whatever segment that carries the stream's bytes, from an index inside the window on, arrives, a
-- receiver that follows the stream goes on following it.
pub segment_received-Tracks :
    (s : ℕ → ℕ) (isn : WrappingInt32) (r : TcpReceiver) (seg : TcpSegment) (index : ℕ)
    → Tracks s isn r
    → Carries s isn r seg index
    → Tracks s isn (segment_received r seg)
segment_received-Tracks s isn r seg index t c =
    subst (Tracks s isn) (sym (segment_received-index s isn r seg index t c)) (record {
      known = t.known;
      range = t.range;
      in_step =
          push_substring-InStep s r.reassembler seg.payload index seg.header.fin t.in_step
            c.admissible c.excerpt;
    })

-- The first SYN, with a 32-bit number, fixes the initial sequence number: if its payload is the
-- start of the stream and the reassembler is in step with it, then the receiver follows the stream.
pub segment_received-syn :
    (s : ℕ → ℕ) (r : TcpReceiver) (seg : TcpSegment)
    → r.isn ≡ none
    → seg.header.syn ≡ true
    → seg.header.seqno < u32_mod
    → InStep s r.reassembler
    → Admissible r.reassembler seg.payload 0
    → Excerpt s seg.payload 0
    → Tracks s seg.header.seqno (segment_received r seg)
unfolding segment_received
segment_received-syn s r seg h h' range v a ex =
    subst (λ o. Tracks s seg.header.seqno (receive_with o r seg)) (sym h)
      (rw h' (record {
        known = refl;
        range = range;
        in_step = push_substring-InStep s r.reassembler seg.payload 0 seg.header.fin v a ex;
      }))

-- A receiver that follows the stream acknowledges the SYN, every byte that it has assembled, and the
-- end of the stream once the output has ended; and acknowledgment number and window size add up to
-- the first number that it does not accept.
pub ackno_window :
    (s : ℕ → ℕ) (isn : WrappingInt32) (r : TcpReceiver)
    → Tracks s isn r
    → let first = r.reassembler.first_unassembled_index in
      let fin : ℕ = if (stream_out r).is_input_ended then 1 else 0 in
      (ackno r ≡ some (wrap (1 + first + fin) isn))
      × (abs_ackno r + window_size r ≡ 1 + first + fin + room r.reassembler)
unfolding ackno
ackno_window s isn r t =
    let e : abs_ackno r
        ≡ 1
          + r.reassembler.first_unassembled_index
          + (if (stream_out r).is_input_ended then 1 else 0) =
      ground (arith, t.in_step.written, t.in_step.sizes.small) in
    (
      rw (t.known, ackno) (ap (λ k. some (wrap k isn)) e),
      omega (arith, e, t.in_step.same_capacity, t.in_step.output_valid),
    )
