-- ===== src/TcpConnection.antt =====
-- libsponge/tcp_connection.hh and tcp_connection.cc: a TCP endpoint, which joins a sender and a
-- receiver. Each method returns the new endpoint; the queue of segments to transmit is a list, front
-- first.
pub mod Flush
pub mod Lifecycle
pub mod Close
pub mod Replies
mod Tests
use csed353_computer_network.Prelude.{
  ℕ, ◌+◌, ◌*◌, Bool, true, false, not, ◌&&◌, Option, none, some, List, [], ◌∷◌, ◌++◌, ltb, leb,
  ◌==◌, if◌then◌else◌, length, add64,
}
use csed353_computer_network.WrappingIntegers.{WrappingInt32, retreat}
use csed353_computer_network.ByteStream
use csed353_computer_network.ByteStream.{ByteStream}
use csed353_computer_network.TcpSegment.{TcpSegment, TcpHeader, length_in_sequence_space}
use csed353_computer_network.TcpConfig.{TcpConfig, max_retx_attempts}
use csed353_computer_network.TcpReceiver
use csed353_computer_network.TcpReceiver.{TcpReceiver}
use csed353_computer_network.TcpSender
use csed353_computer_network.TcpSender.{TcpSender}

pub record TcpConnection : Type 0 where
  pub cfg : TcpConfig
  pub receiver : TcpReceiver
  pub sender : TcpSender
  pub segments_out : List TcpSegment
  pub linger_after_streams_finish : Bool
  pub time_since_last_segment_received : ℕ
  pub is_active : Bool
  pub is_fin_sent : Bool
  pub is_fin_acked : Bool

-- The random initial sequence number of the sender is an argument.
unfoldable pub new : TcpConfig → WrappingInt32 → TcpConnection
new cfg random = record {
  cfg = cfg;
  receiver = TcpReceiver.new cfg.recv_capacity;
  sender = TcpSender.new cfg.send_capacity cfg.rt_timeout cfg.fixed_isn random;
  segments_out = [];
  linger_after_streams_finish = true;
  time_since_last_segment_received = 0;
  is_active = true;
  is_fin_sent = false;
  is_fin_acked = false;
}

-- The accessors.
abbrev pub remaining_outbound_capacity : TcpConnection → ℕ
remaining_outbound_capacity c = ByteStream.remaining_capacity c.sender.stream

abbrev pub bytes_in_flight : TcpConnection → ℕ
bytes_in_flight c = c.sender.bytes_in_flight

abbrev pub unassembled_bytes : TcpConnection → ℕ
unassembled_bytes c = TcpReceiver.unassembled_bytes c.receiver

abbrev pub active : TcpConnection → Bool
active c = c.is_active

abbrev pub inbound_ended : TcpConnection → Bool
inbound_ended c = ByteStream.input_ended (TcpReceiver.stream_out c.receiver)

abbrev pub u16_max : ℕ
u16_max = 65535

abbrev pub with_ackno : Option WrappingInt32 → TcpHeader → TcpHeader
with_ackno none h = h
with_ackno (some ackno) h = record h { ackno = ackno; ack = true }

-- What `flush_sender` writes into a segment before it is sent.
abbrev pub stamped : TcpReceiver → TcpSegment → TcpSegment
stamped r seg = record seg {
  header = record (with_ackno (TcpReceiver.ackno r) seg.header) {
    win = if ltb (TcpReceiver.window_size r) u16_max then TcpReceiver.window_size r else u16_max;
  };
}

-- One round of the loop of `flush_sender`, for the front segment of the sender's queue.
abbrev pub flush_segment : TcpConnection → TcpSegment → List TcpSegment → TcpConnection
flush_segment c seg rest = record c {
  sender = record (c.sender) { segments_out = rest };
  segments_out = c.segments_out ++ (stamped c.receiver seg ∷ []);
  is_fin_sent = if (stamped c.receiver seg).header.fin then true else c.is_fin_sent;
}

unfoldable pub flush_queue : TcpConnection → List TcpSegment → TcpConnection
flush_queue c [] = c
flush_queue c (seg ∷ rest) = flush_queue (flush_segment c seg rest) rest

unfoldable pub flush_sender : TcpConnection → TcpConnection
flush_sender c = flush_queue c c.sender.segments_out

abbrev pub set_errors : TcpConnection → TcpConnection
set_errors c = record c {
  sender = record (c.sender) { stream = ByteStream.set_error c.sender.stream };
  receiver = record (c.receiver) {
    reassembler = record (c.receiver.reassembler) {
      output = ByteStream.set_error (TcpReceiver.stream_out c.receiver);
    };
  };
}

-- The end of `send_rst`: the front of the sender's queue goes out with the RST flag. The queue holds
-- the segment that was just put there.
abbrev pub push_rst : TcpConnection → List TcpSegment → TcpConnection
push_rst c [] = c
push_rst c (seg ∷ rest) = record c {
  sender = record (c.sender) { segments_out = rest };
  segments_out =
      c.segments_out ++ (record seg { header = record (seg.header) { rst = true } } ∷ []);
}

unfoldable pub send_rst : TcpConnection → TcpConnection
send_rst c =
    let c' : TcpConnection = record (set_errors c) { is_active = false } in
    let sender = TcpSender.send_empty_segment (record (c'.sender) { segments_out = [] }) in
    push_rst (record c' { sender = sender }) sender.segments_out

-- The branch of `segment_received` for a connection that is not active.
abbrev pub receive_inactive : TcpConnection → TcpSegment → TcpConnection
receive_inactive c seg =
    if seg.header.syn
    then record c { is_active = true; receiver = TcpReceiver.segment_received c.receiver seg }
    else c

-- The branch for a segment with the RST flag.
abbrev pub receive_rst : TcpConnection → TcpConnection
receive_rst c = set_errors (record c { is_active = false })

abbrev pub has_value : Option WrappingInt32 → Bool
has_value none = false
has_value (some a) = true

-- The calls of the receiver and the sender.
unfoldable pub receive_parts : TcpConnection → TcpSegment → TcpConnection
receive_parts c seg =
    let receiver = TcpReceiver.segment_received c.receiver seg in
    let acked =
      if seg.header.ack
      then TcpSender.ack_received c.sender seg.header.ackno seg.header.win
      else c.sender in
    record c {
      receiver = receiver;
      sender =
          if has_value (TcpReceiver.ackno receiver) then TcpSender.fill_window acked else acked;
    }

-- The bookkeeping of the two ends of the streams.
abbrev pub note_ends : TcpConnection → TcpSegment → TcpConnection
note_ends c seg =
    if c.is_fin_sent
    then (if seg.header.ackno == TcpSender.next_seqno_relative c.sender
        then record c {
          is_fin_acked = true;
          is_active = c.is_active && c.linger_after_streams_finish;
        }
        else c)
    else record c {
      linger_after_streams_finish = c.linger_after_streams_finish && not (inbound_ended c);
    }

abbrev pub queue_empty : TcpConnection → Bool
queue_empty c = length c.sender.segments_out == 0

abbrev pub send_empty : TcpConnection → TcpConnection
send_empty c = record c { sender = TcpSender.send_empty_segment c.sender }

-- An acknowledgment for a segment that occupies sequence numbers, if nothing else is sent.
abbrev pub reply_to_data : TcpConnection → TcpSegment → TcpConnection
reply_to_data c seg =
    if ltb 0 (length_in_sequence_space seg) && queue_empty c then send_empty c else c

abbrev pub is_keep_alive : Option WrappingInt32 → TcpSegment → Bool
is_keep_alive none seg = false
is_keep_alive (some ackno) seg =
    (length_in_sequence_space seg == 0) && (seg.header.seqno == retreat ackno 1)

abbrev pub reply_to_keep_alive : TcpConnection → TcpSegment → TcpConnection
reply_to_keep_alive c seg =
    if is_keep_alive (TcpReceiver.ackno c.receiver) seg then send_empty c else c

-- The rest of `segment_received` for an active connection.
unfoldable pub receive_active : TcpConnection → TcpSegment → TcpConnection
receive_active c seg =
    let noted = note_ends (receive_parts c seg) seg in
    flush_sender (reply_to_keep_alive (reply_to_data noted seg) seg)

unfoldable pub segment_received : TcpConnection → TcpSegment → TcpConnection
segment_received c seg =
    let c' : TcpConnection = record c { time_since_last_segment_received = 0 } in
    if not c'.is_active
    then receive_inactive c' seg
    else (if seg.header.rst then receive_rst c' else receive_active c' seg)

abbrev pub fill_and_flush : TcpConnection → TcpConnection
fill_and_flush c = flush_sender (record c { sender = TcpSender.fill_window c.sender })

-- `write` returns the endpoint and the number of bytes accepted.
unfoldable pub write : TcpConnection → List ℕ → TcpConnection × ℕ
write c data' =
    let (stream, accepted_bytes) = ByteStream.write c.sender.stream data' in
    (fill_and_flush (record c { sender = record (c.sender) { stream = stream } }), accepted_bytes)

-- The part of `tick` on a clean shutdown.
abbrev pub shut_down : TcpConnection → TcpConnection
shut_down c =
    if inbound_ended c && c.is_fin_acked
    then (if not c.linger_after_streams_finish
        then record c { is_active = false }
        else (if leb (10 * c.cfg.rt_timeout) c.time_since_last_segment_received
            then record c { is_active = false }
            else c))
    else c

unfoldable pub tick : TcpConnection → ℕ → TcpConnection
tick c ms_since_last_tick =
    let c' : TcpConnection = record c {
      time_since_last_segment_received =
          add64 c.time_since_last_segment_received ms_since_last_tick;
      sender = TcpSender.tick c.sender ms_since_last_tick;
    } in
    if ltb max_retx_attempts c'.sender.consecutive_retransmissions
    then send_rst c'
    else flush_sender (shut_down c')

unfoldable pub end_input_stream : TcpConnection → TcpConnection
end_input_stream c =
    fill_and_flush
      (record c { sender = record (c.sender) { stream = ByteStream.end_input c.sender.stream } })

unfoldable pub connect : TcpConnection → TcpConnection
connect c = fill_and_flush (record c { is_active = true })

-- The destructor, without its messages.
unfoldable pub destroy : TcpConnection → TcpConnection
destroy c = if active c then send_rst c else c
