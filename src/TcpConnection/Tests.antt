-- ===== src/TcpConnection/Tests.antt =====
-- An endpoint with small buffers, whose first number is 500.
use csed353_computer_network.Prelude.{
  ℕ, ◌+◌, ◌*◌, ◌<◌, ◌≡◌, ◌↔◌, refl, true, false, some, [], ◌∷◌, arith,
}
use csed353_computer_network.WrappingIntegers.{wrap}
use csed353_computer_network.ByteStream
use csed353_computer_network.StreamReassembler
use csed353_computer_network.TcpSegment.{TcpSegment, default_header, empty_segment}
use csed353_computer_network.TcpConfig.{TcpConfig}
use csed353_computer_network.TcpReceiver
use csed353_computer_network.TcpSender
use csed353_computer_network.TcpSender.{TcpSender, front}
use csed353_computer_network.TcpSender.Timer
use csed353_computer_network.TcpConnection.{TcpConnection, new, connect, flush_queue, flush_sender}
use csed353_computer_network.TcpConnection.Lifecycle.{
  receives, writes, ticks, ends, run, run-inactive,
}
use csed353_computer_network.TcpConnection.Close
use csed353_computer_network.TcpConnection.Close.{tick_retransmits, Lingers, ticks_linger}

abbrev small_config : TcpConfig
small_config = record {
  rt_timeout = 10;
  recv_capacity = 4;
  send_capacity = 4;
  fixed_isn = some 500;
}

abbrev fresh : TcpConnection
fresh = new small_config 0

abbrev plain_segment : TcpSegment
plain_segment = record empty_segment { header = record default_header { seqno = 1001 } }

abbrev syn_segment : TcpSegment
syn_segment = record empty_segment { header = record default_header { syn = true; seqno = 1000 } }

abbrev rst_segment : TcpSegment
rst_segment = record empty_segment { header = record default_header { rst = true; seqno = 1001 } }

-- A segment that waits in the sender.
abbrev queueing : TcpConnection
queueing = record fresh {
  sender = record (fresh.sender) { segments_out = plain_segment ∷ syn_segment ∷ [] };
}

abbrev dead : TcpConnection
dead = record fresh { is_active = false }

-- An endpoint whose SYN has been retransmitted `count` times.
abbrev retried : ℕ → TcpConnection
retried count = record fresh {
  sender = record (fresh.sender) {
    next_seqno = 1;
    bytes_in_flight = 1;
    outstanding_segments = syn_segment ∷ [];
    consecutive_retransmissions = count;
  };
}

-- An endpoint that has sent and received all there is, and waits for its peer.
abbrev lingering : TcpConnection
lingering = record fresh {
  sender = record (fresh.sender) {
    next_seqno = 2;
    retx_timer = record { init_rto = 10; rto = 10; t = 0; is_running = false };
  };
  receiver = record (fresh.receiver) {
    isn = some 1000;
    reassembler = record (fresh.receiver.reassembler) {
      output = record (TcpReceiver.stream_out fresh.receiver) { is_input_ended = true };
    };
  };
  is_fin_sent = true;
  is_fin_acked = true;
}

-- Two endpoints connect; the first then sends the last of its stream.
abbrev syn_sent : TcpConnection
syn_sent = connect fresh

connect_run :
    ((syn_sent.segments_out) ≡ (
      record plain_segment { header = record default_header { syn = true; seqno = 500; win = 4 } }
      ∷ []))
unfolding connect new flush_sender flush_queue TcpReceiver.new TcpReceiver.ackno TcpSender.new
    TcpSender.fill_window TcpSender.transmit ByteStream.new wrap StreamReassembler.new
connect_run = refl

run-inactive_example :
    (run dead (receives plain_segment ∷ writes (1 ∷ 2 ∷ []) ∷ ticks 5 ∷ ends ∷ [])).is_active
    ≡ false
run-inactive_example =
    run-inactive dead (receives plain_segment ∷ writes (1 ∷ 2 ∷ []) ∷ ticks 5 ∷ ends ∷ [])
      (refl, tt) refl

lingering-Lingers : Lingers lingering
unfolding new TcpSender.new
lingering-Lingers = record {
  is_active = refl;
  inbound_over = refl;
  outbound_over = refl;
  peer_last = refl;
  idle = refl;
  few = omega arith;
}

ticks_linger_example :
    ((Close.ticks lingering (60 ∷ 30 ∷ [])).is_active ≡ true)
    ↔ (lingering.time_since_last_segment_received + 90 < 10 * lingering.cfg.rt_timeout)
unfolding new
ticks_linger_example =
    ticks_linger lingering (60 ∷ 30 ∷ []) lingering-Lingers (omega arith) (omega arith)
