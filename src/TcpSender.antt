-- ===== src/TcpSender.antt =====
-- libsponge/tcp_sender.hh and tcp_sender.cc: the sending half of a TCP endpoint. A queue is the list
-- of its elements, front first. The random initial sequence number is an argument.
pub mod Timer
pub mod Chain
pub mod Fill
pub mod Loop
pub mod FillWindow
pub mod Window
pub mod Ack
pub mod Resend
pub mod Backoff
pub mod Shortfalls
mod Tests
use csed353_computer_network.Prelude.{
  ℕ, zero, suc, ◌+◌, Bool, true, false, not, ◌&&◌, Option, none, some, List, [], ◌∷◌, ◌++◌, ltb,
  leb, ◌==◌, if◌then◌else◌, length, add32, add64, sub64,
}
use csed353_computer_network.WrappingIntegers.{WrappingInt32, wrap, unwrap}
use csed353_computer_network.ByteStream
use csed353_computer_network.ByteStream.{ByteStream}
use csed353_computer_network.TcpSegment.{
  TcpSegment, TcpHeader, default_header, empty_segment, length_in_sequence_space,
}
use csed353_computer_network.TcpConfig.{max_payload_size}
use Timer
use Timer.{RetransmissionTimer}

pub record TcpSender : Type 0 where
  pub isn : WrappingInt32
  pub segments_out : List TcpSegment
  pub initial_retransmission_timeout : ℕ
  pub stream : ByteStream
  pub next_seqno : ℕ
  pub retx_timer : RetransmissionTimer
  pub previous_ackno : ℕ
  pub window_size : ℕ
  pub outstanding_segments : List TcpSegment
  pub bytes_in_flight : ℕ
  pub consecutive_retransmissions : ℕ
  pub is_fin_sent : Bool

-- `fixed_isn.value_or(random)`.
abbrev pub isn_or : Option WrappingInt32 → WrappingInt32 → WrappingInt32
isn_or none random = random
isn_or (some isn) random = isn

unfoldable pub new : ℕ → ℕ → Option WrappingInt32 → WrappingInt32 → TcpSender
new capacity retx_timeout fixed_isn random = record {
  isn = isn_or fixed_isn random;
  segments_out = [];
  initial_retransmission_timeout = retx_timeout;
  stream = ByteStream.new capacity;
  next_seqno = 0;
  retx_timer = Timer.new retx_timeout;
  previous_ackno = 0;
  window_size = 1;
  outstanding_segments = [];
  bytes_in_flight = 0;
  consecutive_retransmissions = 0;
  is_fin_sent = false;
}

-- The relative number for the next byte, `next_seqno()`.
abbrev pub next_seqno_relative : TcpSender → WrappingInt32
next_seqno_relative s = wrap s.next_seqno s.isn

abbrev pub numbered : TcpSender → TcpSegment → TcpSegment
numbered s seg = record seg { header = record (seg.header) { seqno = wrap s.next_seqno s.isn } }

-- The statements with which `fill_window` sends a segment, after it is given its sequence number.
unfoldable pub transmit : TcpSender → TcpSegment → TcpSender
transmit s seg = record s {
  segments_out = s.segments_out ++ (numbered s seg ∷ []);
  outstanding_segments = s.outstanding_segments ++ (numbered s seg ∷ []);
  retx_timer = Timer.start s.retx_timer;
  next_seqno = add64 s.next_seqno (length_in_sequence_space seg);
  bytes_in_flight = add64 s.bytes_in_flight (length_in_sequence_space seg);
}

abbrev pub syn_segment : TcpSegment
syn_segment = record empty_segment { header = record default_header { syn = true } }

abbrev pub fin_segment : TcpSegment
fin_segment = record empty_segment { header = record default_header { fin = true } }

-- The window that `fill_window` works with: a window of 0 counts as 1.
abbrev pub effective_window : TcpSender → ℕ
effective_window s = if s.window_size == 0 then 1 else s.window_size

abbrev pub available_window : TcpSender → ℕ → ℕ
available_window s window = sub64 window (sub64 s.next_seqno s.previous_ackno)

abbrev pub bytes_to_send : ℕ → ℕ
bytes_to_send available = if ltb available max_payload_size then available else max_payload_size

-- Whether a segment with this payload also carries the FIN, after the payload was taken out.
abbrev pub carries_fin : ByteStream → ℕ → List ℕ → Bool
carries_fin stream window data' = ltb 0 (sub64 window (length data')) && ByteStream.eof stream

abbrev pub data_segment : List ℕ → Bool → TcpSegment
data_segment data' fin = record { header = record default_header { fin = fin }; payload = data' }

-- The branch of the loop for a stream that has reached its end; the loop is left.
unfoldable pub send_fin : TcpSender → TcpSender
send_fin s = if not s.is_fin_sent then transmit (record s { is_fin_sent = true }) fin_segment else s

-- The sender after data was taken out of its stream, before the data is sent.
abbrev pub after_read : TcpSender → ByteStream → Bool → TcpSender
after_read s stream fin = record s {
  stream = stream;
  is_fin_sent = if fin then true else s.is_fin_sent;
}

-- The rest of a round that took `data'` out of the stream; the flag says whether to go on.
unfoldable pub send_taken : TcpSender → ByteStream → List ℕ → Bool → TcpSender × Bool
send_taken s stream data' fin =
    let seg = data_segment data' fin in
    if length_in_sequence_space seg == 0
    then (after_read s stream fin, false)
    else (transmit (after_read s stream fin) seg, true)

-- The branch of the loop that takes data out of the stream.
unfoldable pub send_data : TcpSender → ℕ → ℕ → TcpSender × Bool
send_data s window available =
    let (data', stream) = ByteStream.read s.stream (bytes_to_send available) in
    send_taken s stream data' (carries_fin stream window data')

-- One round of the loop of `fill_window`.
unfoldable pub fill_round : TcpSender → ℕ → ℕ → TcpSender × Bool
fill_round s window available =
    if ByteStream.eof s.stream then (send_fin s, false) else send_data s window available

-- The loop of `fill_window`. A round that goes on has taken a byte out of the stream or sent the
-- FIN, and no round follows the one after the FIN: two rounds more than there are bytes are enough.
unfoldable pub fill_loop : ℕ → TcpSender → ℕ → TcpSender
fill_loop zero s window = s
fill_loop (suc fuel) s window = elim (ltb 0 (available_window s window)) [
  | true ↦ elim ((fill_round s window (available_window s window)).1) [
    | true ↦ fill_loop fuel (fill_round s window (available_window s window)).0 window
    | false ↦ (fill_round s window (available_window s window)).0
  ]
  | false ↦ s
]

abbrev pub loop_fuel : TcpSender → ℕ
loop_fuel s = suc (suc (length s.stream.buffer))

unfoldable pub fill_window : TcpSender → TcpSender
fill_window s =
    if s.next_seqno == 0
    then transmit s syn_segment
    else (if ltb 0 s.next_seqno && (s.next_seqno == s.bytes_in_flight)
        then s
        else fill_loop (loop_fuel s) s (effective_window s))

-- The loop of `ack_received`: segments that are fully acknowledged leave the queue.
unfoldable pub drop_acked : WrappingInt32 → ℕ → List TcpSegment → ℕ → List TcpSegment × ℕ
drop_acked isn ackno [] in_flight = ([], in_flight)
drop_acked isn ackno (seg ∷ rest) in_flight =
    let seg_unwrapped_seqno = unwrap seg.header.seqno isn ackno in
    let dropped = drop_acked isn ackno rest (sub64 in_flight (length_in_sequence_space seg)) in
    if leb (add64 seg_unwrapped_seqno (length_in_sequence_space seg)) ackno
    then dropped
    else (seg ∷ rest, in_flight)

abbrev pub restart : RetransmissionTimer → RetransmissionTimer
restart t = Timer.start (Timer.stop t)

-- `ack_received` up to its call of `fill_window`, for an acknowledgment of new data.
unfoldable pub acknowledge : TcpSender → ℕ → TcpSender
acknowledge s ackno =
    let (outstanding, in_flight) =
      drop_acked s.isn ackno s.outstanding_segments s.bytes_in_flight in
    record s {
      previous_ackno = ackno;
      retx_timer = restart (Timer.set_rto_init s.retx_timer);
      outstanding_segments = outstanding;
      bytes_in_flight = in_flight;
      consecutive_retransmissions = 0;
    }

-- The end of `ack_received`.
abbrev pub settle_timer : TcpSender → TcpSender
settle_timer s = record s {
  retx_timer =
      if ltb 0 (length s.outstanding_segments)
      then restart s.retx_timer
      else Timer.stop s.retx_timer;
}

unfoldable pub ack_received : TcpSender → WrappingInt32 → ℕ → TcpSender
ack_received s ackno window_size =
    let unwrapped_ackno = unwrap ackno s.isn s.previous_ackno in
    let s' : TcpSender = record s { window_size = window_size } in
    if ltb s.next_seqno unwrapped_ackno
    then s'
    else (if leb unwrapped_ackno s.previous_ackno
        then s'
        else settle_timer (fill_window (acknowledge s' unwrapped_ackno)))

abbrev pub front : List TcpSegment → List TcpSegment
front [] = []
front (seg ∷ rest) = seg ∷ []

-- What `tick` does when the timer has expired.
unfoldable pub retransmit : TcpSender → TcpSender
retransmit s = record s {
  segments_out = s.segments_out ++ front s.outstanding_segments;
  consecutive_retransmissions =
      if s.window_size == 0
      then s.consecutive_retransmissions
      else add32 s.consecutive_retransmissions 1;
  retx_timer = restart (if s.window_size == 0 then s.retx_timer else Timer.double_rto s.retx_timer);
}

unfoldable pub tick : TcpSender → ℕ → TcpSender
tick s ms_since_last_tick =
    let (timer, is_expired) = Timer.tick s.retx_timer ms_since_last_tick in
    let s' : TcpSender = record s { retx_timer = timer } in if is_expired then retransmit s' else s'

unfoldable pub send_empty_segment : TcpSender → TcpSender
send_empty_segment s = record s { segments_out = s.segments_out ++ (numbered s empty_segment ∷ []) }
