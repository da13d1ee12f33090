-- ===== src/TcpSender/Loop.antt =====
-- The loop of `fill_window`: it keeps the sender's account, ends by itself, stays within the window
-- and leaves no room unused.
use csed353_computer_network.Prelude.{
  ℕ, suc, ◌+◌, ◌-◌, ◌^◌, ◌<◌, ◌≤◌, ◌≡◌, inl, inr, min, ap, ◌∙◌, Bool, true, false, List, arith,
  length, if◌then◌else◌, ltb, ◌==◌, Bool-cases, if_elim, and_parts, length-take, length-drop,
}
use csed353_computer_network.ByteStream
use csed353_computer_network.ByteStream.{ByteStream}
use csed353_computer_network.ByteStream.Refine.{peek-take, pop-drop}
use csed353_computer_network.TcpSegment.{TcpSegment, length_in_sequence_space}
use csed353_computer_network.TcpSender.{
  TcpSender, transmit, data_segment, after_read, send_taken, carries_fin, bytes_to_send, send_fin,
  send_data, fill_round, fill_loop, available_window,
}
use csed353_computer_network.TcpSender.Chain.{Sound}
use csed353_computer_network.TcpSender.Fill.{budget, send_fin-Sound, send_data-Sound, not_ended}

-- The data of a round, the stream that it leaves, and whether the FIN goes with it.
abbrev pub data_of : TcpSender → ℕ → List ℕ
data_of s available = (ByteStream.read s.stream (bytes_to_send available)).0

abbrev pub stream_of : TcpSender → ℕ → ByteStream
stream_of s available = (ByteStream.read s.stream (bytes_to_send available)).1

abbrev pub fin_of : TcpSender → ℕ → ℕ → Bool
fin_of s window available = carries_fin (stream_of s available) window (data_of s available)

abbrev pub segment_of : TcpSender → ℕ → ℕ → TcpSegment
segment_of s window available = data_segment (data_of s available) (fin_of s window available)

abbrev pub read_of : TcpSender → ℕ → ℕ → TcpSender
read_of s window available = after_read s (stream_of s available) (fin_of s window available)

pub data_lengths :
    (s : TcpSender) (available : ℕ)
    → (length (data_of s available) ≡ min (bytes_to_send available) (length s.stream.buffer))
      × (length (stream_of s available).buffer
          ≡ length s.stream.buffer - min (bytes_to_send available) (length s.stream.buffer))
unfolding ByteStream.read
data_lengths s available =
    let n = bytes_to_send available in
    (
      ap length (peek-take s.stream n) ∙ length-take n s.stream.buffer,
      ap length (pop-drop s.stream n) ∙ length-drop n s.stream.buffer ∙ omega arith,
    )

-- A round ends the stream, finds nothing to send, or sends a segment and goes on.
pub round_cases {ℓ} :
    (P : TcpSender × Bool → Type ℓ) (s : TcpSender) (window available : ℕ)
    → (s.stream.is_eof ≡ true → P (send_fin s, false))
    → (s.stream.is_eof ≡ false
        → length_in_sequence_space (segment_of s window available) ≡ 0
        → P (read_of s window available, false))
    → (s.stream.is_eof ≡ false
        → 0 < length_in_sequence_space (segment_of s window available)
        → P (transmit (read_of s window available) (segment_of s window available), true))
    → P (fill_round s window available)
unfolding fill_round send_data send_taken
round_cases P s window available ended nothing something =
    if_elim P s.stream.is_eof _ _ ended (λ open_end.
      if_elim P (length_in_sequence_space (segment_of s window available) == 0)
        (read_of s window available, false)
        (transmit (read_of s window available) (segment_of s window available), true)
        (λ h. nothing open_end (ground arith)) (λ h. something open_end (ground arith)))

pub fill_round-Sound :
    (st : ℕ → ℕ) (s : TcpSender) (window available : ℕ)
    → Sound st s
    → budget s < 2 ^ 63
    → 0 < s.next_seqno
    → Sound st (fill_round s window available).0
unfolding fill_round
fill_round-Sound st s window available v small pos =
    if_elim (λ (p : TcpSender × Bool). Sound st p.0) s.stream.is_eof (send_fin s, false)
      (send_data s window available) (send_fin-Sound st s v small)
      (send_data-Sound st s window available v small pos)

-- What the loop has left to do: a byte to send, or the end of the stream to reach.
abbrev pub left_to_do : TcpSender → ℕ
left_to_do s = length s.stream.buffer + (if s.stream.is_eof then 0 else 1)

fin_eof :
    (s : TcpSender) (window available : ℕ)
    → fin_of s window available ≡ true
    → (stream_of s available).is_eof ≡ true
fin_eof s window available h = (and_parts _ _ h).1

-- A round that goes on leaves less to do.
pub fill_round-left :
    (s : TcpSender) (window available : ℕ)
    → (fill_round s window available).1 ≡ true
    → left_to_do (fill_round s window available).0 < left_to_do s
fill_round-left s window available =
    round_cases (λ p. p.1 ≡ true → left_to_do p.0 < left_to_do s) s window available (λ e h. cc)
      (λ e z h. cc)
      (λ e pos h.
        unfold transmit in ground (arith, data_lengths s available, fin_eof s window available))

-- A round moves forward, within what the sender can use, and leaves the receiver's figures alone.
pub record Forward (s s' : TcpSender) : Type 0 where
  pub next : s.next_seqno ≤ s'.next_seqno
  pub used : budget s' ≤ budget s
  pub acked : s'.previous_ackno ≡ s.previous_ackno
  pub numbers : s'.isn ≡ s.isn
  pub window : s'.window_size ≡ s.window_size

send_fin-Forward : (s : TcpSender) → budget s < 2 ^ 63 → Forward s (send_fin s)
unfolding send_fin transmit
send_fin-Forward s small = ground arith

pub fill_round-Forward :
    {st : ℕ → ℕ} (s : TcpSender) (window available : ℕ)
    → Sound st s
    → budget s < 2 ^ 63
    → Forward s (fill_round s window available).0
fill_round-Forward s window available v small =
    round_cases (λ p. Forward s p.0) s window available (λ e. send_fin-Forward s small)
      (λ e z. ground (arith, data_lengths s available, not_ended s v e))
      (λ e pos. unfold transmit in ground (arith, data_lengths s available, not_ended s v e))

pub Forward-trans : {s t u : TcpSender} → Forward s t → Forward t u → Forward s u
Forward-trans f g = record {
  next = omega (arith, f.next, g.next);
  used = omega (arith, f.used, g.used);
  acked = g.acked ∙ f.acked;
  numbers = g.numbers ∙ f.numbers;
  window = g.window ∙ f.window;
}

pub Forward-refl : (s : TcpSender) → Forward s s
Forward-refl s = omega arith

-- The cases of the loop, one round at a time.
pub loop_cases {ℓ} :
    (P : TcpSender → Type ℓ) (fuel : ℕ) (s : TcpSender) (window : ℕ)
    → (ltb 0 (available_window s window) ≡ false → P s)
    → (ltb 0 (available_window s window) ≡ true
        → (fill_round s window (available_window s window)).1 ≡ false
        → P (fill_round s window (available_window s window)).0)
    → (ltb 0 (available_window s window) ≡ true
        → (fill_round s window (available_window s window)).1 ≡ true
        → P (fill_loop fuel (fill_round s window (available_window s window)).0 window))
    → P (fill_loop (suc fuel) s window)
unfolding fill_loop
loop_cases P fuel s window full last more = elim (Bool-cases (ltb 0 (available_window s window))) [
  | inr e ↦ rw (e, fill_loop) (full e)
  | inl e ↦ elim (Bool-cases (fill_round s window (available_window s window)).1) [
    | inr e' ↦ rw (e, e', fill_loop) (last e e')
    | inl e' ↦ rw (e, e', fill_loop) (more e e')
  ]
]
