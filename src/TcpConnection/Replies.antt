-- ===== src/TcpConnection/Replies.antt =====
-- What `segment_received` of libsponge/tcp_connection.cc sends in reply.
use csed353_computer_network.Prelude.{ℕ, ◌≡◌, length}
use csed353_computer_network.TcpSegment.{TcpSegment}
use csed353_computer_network.TcpReceiver
use csed353_computer_network.TcpReceiver.{TcpReceiver}
use csed353_computer_network.TcpSender
use csed353_computer_network.TcpConnection.{
  TcpConnection, receive_parts, note_ends, reply_to_data, reply_to_keep_alive,
}

-- What the steps of `segment_received` before the last leave alone.
record SameOut (c d : TcpConnection) : Type 0 where
  segments_out : d.segments_out ≡ c.segments_out
  receiver : d.receiver ≡ c.receiver

-- The queue of the sender.
abbrev queued : TcpConnection → ℕ
queued c = length c.sender.segments_out

-- The endpoint before `segment_received` hands its segments on.
abbrev replied : TcpConnection → TcpSegment → TcpConnection
replied c seg =
    let noted =
      note_ends (receive_parts (record c { time_since_last_segment_received = 0 }) seg) seg in
    reply_to_keep_alive (reply_to_data noted seg) seg
