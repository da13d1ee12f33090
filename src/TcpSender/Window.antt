-- ===== src/TcpSender/Window.antt =====
-- How far `fill_window` goes: not past the window, and not short of it while there is data.
use csed353_computer_network.Prelude.{
  ℕ, zero, suc, ◌+◌, ◌^◌, ◌<◌, ◌≤◌, ◌≡◌, ◌≢◌, ◌⊎◌, inl, inr, true, false, ◌&&◌, List, [], arith,
  length, if◌then◌else◌, ltb, ◌==◌, if_elim,
}
use csed353_computer_network.TcpSender.{
  TcpSender, transmit, send_fin, fill_round, fill_loop, loop_fuel, fill_window, available_window,
  effective_window,
}
use csed353_computer_network.TcpSender.Chain.{Sound}
use csed353_computer_network.TcpSender.Fill.{budget, not_ended}
use csed353_computer_network.TcpSender.Loop.{
  fill_round-Forward, fill_round-Sound, fill_round-left, loop_cases, round_cases, left_to_do,
  data_lengths,
}

-- No number beyond the window is used, but for one that the FIN may take.
abbrev pub Within : ℕ → TcpSender → Type 0
Within window s = s.next_seqno ≤ s.previous_ackno + window + (if s.is_fin_sent then 1 else 0)

-- Nothing more can be sent now: the window is used up, or no byte waits, or the stream is over and
-- its FIN is sent.
abbrev pub Filled : ℕ → TcpSender → Type 0
Filled window s =
    (s.next_seqno ≡ s.previous_ackno + window)
    ⊎ (s.stream.buffer ≡ [])
    ⊎ ((s.stream.is_eof ≡ true) × (s.is_fin_sent ≡ true))

empty_lem : (xs : List ℕ) → length xs ≡ 0 → xs ≡ []
empty_lem xs h = ground arith

-- An honest window while the stream is open.
room_lem :
    {st : ℕ → ℕ} (s : TcpSender) (window : ℕ)
    → Sound st s
    → budget s < 2 ^ 63
    → window < 2 ^ 16
    → Within window s
    → s.stream.is_eof ≡ false
    → available_window s window + s.next_seqno ≡ s.previous_ackno + window
room_lem s window v small hw within open_end =
    ground (arith, not_ended s v open_end, v.flight.acked_sent)

send_fin_lem :
    (s : TcpSender)
    → s.stream.is_eof ≡ true
    → ((send_fin s).stream.is_eof ≡ true) × ((send_fin s).is_fin_sent ≡ true)
unfolding send_fin transmit
send_fin_lem s e = ground arith

round_Within :
    {st : ℕ → ℕ} (s : TcpSender) (window : ℕ)
    → Sound st s
    → budget s < 2 ^ 63
    → window < 2 ^ 16
    → Within window s
    → ltb 0 (available_window s window) ≡ true
    → Within window (fill_round s window (available_window s window)).0
round_Within s window v small hw within positive =
    round_cases (λ p. Within window p.0) s window (available_window s window)
      (λ e. unfold send_fin transmit in ground (arith, v.flight.acked_sent))
      (λ e z. ground (arith, not_ended s v e))
      (λ e pos.
        unfold transmit in
        ground (
          arith,
          room_lem s window v small hw within e,
          data_lengths s (available_window s window),
          not_ended s v e,
        ))

round_Filled :
    {st : ℕ → ℕ} (s : TcpSender) (window : ℕ)
    → Sound st s
    → budget s < 2 ^ 63
    → ltb 0 (available_window s window) ≡ true
    → (fill_round s window (available_window s window)).1 ≡ false
    → Filled window (fill_round s window (available_window s window)).0
round_Filled s window v small positive =
    round_cases (λ p. p.1 ≡ false → Filled window p.0) s window (available_window s window)
      (λ e h. inr (inr (send_fin_lem s e)))
      (λ e z h.
        inr (inl (empty_lem _ (ground (arith, data_lengths s (available_window s window))))))
      (λ e pos h. absurd (ground arith))

fill_loop_window :
    {st : ℕ → ℕ} (fuel : ℕ) (s : TcpSender) (window : ℕ)
    → Sound st s
    → budget s < 2 ^ 63
    → window < 2 ^ 16
    → 0 < s.next_seqno
    → Within window s
    → left_to_do s < fuel
    → Within window (fill_loop fuel s window) × Filled window (fill_loop fuel s window)
fill_loop_window zero s window v small hw pos within h = elim h [ ]
fill_loop_window {st} (suc fuel) s window v small hw pos within h =
    let available = available_window s window in
    let s' = (fill_round s window available).0 in
    let f = fill_round-Forward s window available v small in
    let v' = fill_round-Sound st s window available v small pos in
    loop_cases (λ t. Within window t × Filled window t) fuel s window
      (λ full. (within, inl (ground (arith, v.flight.acked_sent))))
      (λ positive last. (
        round_Within s window v small hw within positive,
        round_Filled s window v small positive last,
      ))
      (λ positive more.
        fill_loop_window fuel s' window v' (omega (arith, f.used)) hw (omega (arith, f.next))
          (round_Within s window v small hw within positive)
          (omega (arith, fill_round-left s window available more)))

-- For a sender with a right account that uses fewer than 2 ^ 63 numbers and has a 16-bit window:
-- once the SYN is acknowledged, and while no more is in flight than the window allows,
-- `fill_window` sends until the window is used up, the buffer of the stream is empty, or the stream
-- is over and the FIN sent; and it uses no number beyond the window, but for one that the FIN may
-- take.
pub fill_window_bounds :
    (st : ℕ → ℕ) (s : TcpSender)
    → Sound st s
    → budget s < 2 ^ 63
    → s.window_size < 2 ^ 16
    → 0 < s.next_seqno
    → s.next_seqno ≢ s.bytes_in_flight
    → Within (effective_window s) s
    → Within (effective_window s) (fill_window s) × Filled (effective_window s) (fill_window s)
unfolding fill_window
fill_window_bounds st s v small hw pos acked within =
    if_elim (λ t. Within (effective_window s) t × Filled (effective_window s) t) (s.next_seqno == 0)
      _ _ (λ e. absurd (ground arith))
      (λ ne.
        if_elim (λ t. Within (effective_window s) t × Filled (effective_window s) t)
          (ltb 0 s.next_seqno && (s.next_seqno == s.bytes_in_flight)) _ _
          (λ e. absurd (ground arith))
          (λ e.
            fill_loop_window (loop_fuel s) s (effective_window s) v small (ground arith) pos within
              (ground arith)))
