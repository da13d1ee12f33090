-- ===== src/TcpSender/Tests.antt =====
-- A sender whose first number is 1000, connected to a receiver with a window of 4, that has five
-- bytes of the stream whose byte k is 10 + k to send.
use csed353_computer_network.Prelude.{ℕ, ◌<◌, ◌^◌, ◌+◌, ◌≡◌, ◌≤◌, refl, true, false, [], ◌∷◌, arith}
use csed353_computer_network.WrappingIntegers.{wrap, unwrap}
use csed353_computer_network.ByteStream
use csed353_computer_network.ByteStream.{ByteStream}
use csed353_computer_network.TcpSegment.{TcpSegment, default_header}
use csed353_computer_network.TcpSender.Timer
use csed353_computer_network.TcpSender.Timer.{RetransmissionTimer}
use csed353_computer_network.TcpSender.{
  TcpSender, fill_window, fill_loop, fill_round, send_data, send_taken, transmit, ack_received,
  acknowledge, drop_acked, tick, retransmit, loop_fuel, available_window, effective_window,
}
use csed353_computer_network.TcpSender.Chain.{Sound, Chain}
use csed353_computer_network.TcpSender.FillWindow.{Ends, fill_window-Sound}
use csed353_computer_network.TcpSender.FillWindow
use csed353_computer_network.TcpSender.Backoff
use csed353_computer_network.TcpSender.Window.{Within, Filled, fill_window_bounds}
use csed353_computer_network.TcpSender.Ack.{ack_received-Sound}
use csed353_computer_network.TcpSender.Backoff.{BackedOff, Call, acks, ticks, step, step-BackedOff}
use csed353_computer_network.TcpSender.Shortfalls.{
  LastSent, fill_window_shrunk, fill_window_fin_beyond,
}

abbrev tens : ℕ → ℕ
tens k = 10 + k

abbrev timer : RetransmissionTimer
timer = record { init_rto = 1000; rto = 1000; t = 0; is_running = true }

abbrev waiting : ByteStream
waiting = record {
  buffer = 10 ∷ 11 ∷ 12 ∷ 13 ∷ 14 ∷ [];
  total_capacity = 100;
  is_input_ended = false;
  total_written_bytes = 5;
  total_read_bytes = 0;
  is_eof = false;
  error = false;
}

abbrev connected : TcpSender
connected = record {
  isn = 1000;
  segments_out = [];
  initial_retransmission_timeout = 1000;
  stream = waiting;
  next_seqno = 1;
  retx_timer = timer;
  previous_ackno = 1;
  window_size = 4;
  outstanding_segments = [];
  bytes_in_flight = 0;
  consecutive_retransmissions = 0;
  is_fin_sent = false;
}

abbrev two_bytes : TcpSegment
two_bytes = record { header = record default_header { seqno = 1001 }; payload = 10 ∷ 11 ∷ [] }

-- Two bytes in flight, two more to come, and the input ended.
abbrev flying : TcpSender
flying = record connected {
  stream = record {
    buffer = 12 ∷ 13 ∷ [];
    total_capacity = 100;
    is_input_ended = true;
    total_written_bytes = 4;
    total_read_bytes = 2;
    is_eof = false;
    error = false;
  };
  next_seqno = 3;
  outstanding_segments = two_bytes ∷ [];
  bytes_in_flight = 2;
}

-- The receiver has announced a window of 1 in the meantime.
abbrev shrunk : TcpSender
shrunk = record flying { window_size = 1 }

connected-Sound : Sound tens connected
connected-Sound = record {
  flight = omega arith;
  stream_valid = omega arith;
  pending = λ h. refl;
  fin_at_end = λ h. absurd (ground arith);
}

flying-Chain : Chain tens 1000 1 (two_bytes ∷ []) 3
unfolding wrap
flying-Chain = (refl, omega arith, refl, refl)

flying-Sound : Sound tens flying
flying-Sound = record {
  flight = record {
    isn_range = omega arith;
    acked_sent = omega arith;
    in_flight_sent = omega arith;
    oldest = omega arith;
    chain = flying-Chain;
  };
  stream_valid = omega arith;
  pending = λ h. refl;
  fin_at_end = λ h. absurd (ground arith);
}

shrunk-Sound : Sound tens shrunk
shrunk-Sound = record {
  flight = record {
    isn_range = omega arith;
    acked_sent = omega arith;
    in_flight_sent = omega arith;
    oldest = omega arith;
    chain = flying-Chain;
  };
  stream_valid = omega arith;
  pending = λ h. refl;
  fin_at_end = λ h. absurd (ground arith);
}

-- Four of the five bytes go out; the acknowledgment of two of them lets the fifth follow.
window_run :
    ((fill_window connected).next_seqno ≡ 5)
    × ((fill_window connected).bytes_in_flight ≡ 4)
    × ((ack_received (fill_window connected) 1005 4).next_seqno ≡ 6)
    × ((ack_received (fill_window connected) 1005 4).bytes_in_flight ≡ 1)
unfolding fill_window fill_loop fill_round send_data send_taken transmit ack_received acknowledge
    drop_acked unwrap wrap ByteStream.read Timer.start Timer.stop Timer.set_rto_init
window_run = (refl, refl, refl, refl)

fill_window_terminates_example : Ends 4 connected (fill_loop (loop_fuel connected) connected 4)
fill_window_terminates_example = FillWindow.fill_window_terminates connected

fill_window-Sound_example : Sound tens (fill_window connected)
fill_window-Sound_example = fill_window-Sound tens connected connected-Sound (omega arith)

fill_window_bounds_example : Within 4 (fill_window connected) × Filled 4 (fill_window connected)
fill_window_bounds_example =
    fill_window_bounds tens connected connected-Sound (omega arith) (omega arith) (omega arith)
      (omega arith) (omega arith)

ack_received-Sound_example : Sound tens (ack_received flying 1003 4)
ack_received-Sound_example =
    ack_received-Sound tens flying 1003 4 flying-Sound (omega arith) (omega arith)

-- After the first timeout the segment is sent again and the timeout is doubled.
tick_run :
    ((tick flying 1000).segments_out ≡ two_bytes ∷ [])
    × ((tick flying 1000).retx_timer.rto ≡ 2000)
    × ((tick flying 999).segments_out ≡ [])
unfolding tick retransmit Timer.tick Timer.start Timer.stop Timer.double_rto
tick_run = (refl, refl, refl)

step-BackedOff_example : BackedOff (step flying (ticks 1000))
unfolding Backoff.backoff
step-BackedOff_example =
    step-BackedOff flying (ticks 1000) (record { timeout = refl }) (omega arith)

fill_window_shrunk_example :
    (2 ^ 63 < available_window shrunk (effective_window shrunk))
    × (3 < (fill_window shrunk).next_seqno)
    × (5 ≤ (fill_window shrunk).next_seqno)
fill_window_shrunk_example =
    fill_window_shrunk tens shrunk shrunk-Sound (omega arith) (omega arith) (omega arith)
      (omega arith) refl (omega arith)

fill_window_fin_beyond_example : LastSent flying (fill_window flying)
fill_window_fin_beyond_example =
    fill_window_fin_beyond tens flying flying-Sound (omega arith) (omega arith) (omega arith)
      (omega arith) (omega arith) (omega arith) (omega arith) (omega arith) refl refl
