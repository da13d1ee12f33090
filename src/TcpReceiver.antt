-- ===== src/TcpReceiver.antt =====
-- libsponge/tcp_receiver.hh and tcp_receiver.cc: segments are handed to the reassembler, and the
-- acknowledgment number and the window size are computed from what it has written.
pub mod Tracks
mod Tests
use csed353_computer_network.Prelude.{
  ℕ, ◌-◌, Bool, Option, none, some, ◌==◌, if◌then◌else◌, add64, sub64,
}
use csed353_computer_network.WrappingIntegers.{WrappingInt32, wrap, unwrap}
use csed353_computer_network.ByteStream
use csed353_computer_network.ByteStream.{ByteStream}
use csed353_computer_network.StreamReassembler
use csed353_computer_network.StreamReassembler.{StreamReassembler, push_substring}
use csed353_computer_network.TcpSegment.{TcpSegment}

pub record TcpReceiver : Type 0 where
  pub reassembler : StreamReassembler
  pub capacity : ℕ
  pub isn : Option WrappingInt32

unfoldable pub new : ℕ → TcpReceiver
new capacity = record {
  reassembler = StreamReassembler.new capacity;
  capacity = capacity;
  isn = none;
}

abbrev pub stream_out : TcpReceiver → ByteStream
stream_out r = r.reassembler.output

abbrev pub unassembled_bytes : TcpReceiver → ℕ
unassembled_bytes r = r.reassembler.unassembled_bytes

-- The branch for a segment that comes once the initial sequence number is known.
unfoldable pub push_segment : TcpReceiver → WrappingInt32 → TcpSegment → TcpReceiver
push_segment r isn seg =
    let abs_64bit_ackno = add64 (ByteStream.bytes_written (stream_out r)) 1 in
    let abs_64bit_seqno = unwrap seg.header.seqno isn abs_64bit_ackno in
    if abs_64bit_seqno == 0 then r else record r {
      reassembler =
          push_substring r.reassembler seg.payload (sub64 abs_64bit_seqno 1) seg.header.fin;
    }

-- `segment_received`, given what is known of the peer's initial sequence number.
abbrev pub receive_with : Option WrappingInt32 → TcpReceiver → TcpSegment → TcpReceiver
receive_with none r seg =
    if seg.header.syn
    then record r {
      isn = some seg.header.seqno;
      reassembler = push_substring r.reassembler seg.payload 0 seg.header.fin;
    }
    else r
receive_with (some isn) r seg = push_segment r isn seg

unfoldable pub segment_received : TcpReceiver → TcpSegment → TcpReceiver
segment_received r seg = receive_with r.isn r seg

-- The absolute number that `ackno` wraps.
abbrev pub abs_ackno : TcpReceiver → ℕ
abs_ackno r =
    let abs_64bit_ackno = add64 (ByteStream.bytes_written (stream_out r)) 1 in
    if ByteStream.input_ended (stream_out r) then add64 abs_64bit_ackno 1 else abs_64bit_ackno

unfoldable pub ackno : TcpReceiver → Option WrappingInt32
ackno r = elim r.isn [ none ↦ none | some isn ↦ some (wrap (abs_ackno r) isn) ]

abbrev pub window_size : TcpReceiver → ℕ
window_size r = ByteStream.remaining_capacity (stream_out r)
