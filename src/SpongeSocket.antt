-- ===== src/SpongeSocket.antt =====
-- The rules of the event loop of libsponge/tcp_helpers/tcp_sponge_socket.cc, over any adapter. What the
-- local stream socket of the owner reads or takes is an argument. `none` stands for an exception.
pub mod Rules
use csed353_computer_network.Prelude.{
  ℕ, Bool, true, false, not, ◌&&◌, ◌||◌, Option, none, some, List, [], ◌∷◌, ltb, ◌==◌,
  if◌then◌else◌, ◌and_then◌, length, min,
}
use csed353_computer_network.ByteStream
use csed353_computer_network.ByteStream.{ByteStream}
use csed353_computer_network.TcpSegment.{TcpSegment}
use csed353_computer_network.TcpReceiver
use csed353_computer_network.TcpConnection
use csed353_computer_network.TcpConnection.{TcpConnection}

pub record SpongeSocket (Adapter : Type 0) : Type 0 where
  pub tcp : TcpConnection
  pub datagram_adapter : Adapter
  pub inbound_shutdown : Bool
  pub outbound_shutdown : Bool
  pub fully_acked : Bool

abbrev pub inbound_stream : TcpConnection → ByteStream
inbound_stream c = TcpReceiver.stream_out c.receiver

-- The connection with another inbound stream.
abbrev pub with_inbound : TcpConnection → ByteStream → TcpConnection
with_inbound c stream = record c {
  receiver = record (c.receiver) {
    reassembler = record (c.receiver.reassembler) { output = stream };
  };
}

-- The segment that the adapter has read is given to the connection.
abbrev pub given : TcpConnection → Option TcpSegment → TcpConnection
given c none = c
given c (some seg) = TcpConnection.segment_received c seg

module _ {Adapter : Type 0} where
  -- Rule 1: a datagram arrives. The last argument is `_thread_data.eof()`.
  unfoldable pub datagram_in :
      (Adapter → Option TcpSegment × Adapter) → SpongeSocket Adapter → Bool → SpongeSocket Adapter
  datagram_in adapter_read s eof =
      let incoming = adapter_read s.datagram_adapter in
      let tcp = given s.tcp incoming.0 in
      record s {
        tcp = tcp;
        datagram_adapter = incoming.1;
        fully_acked =
            if eof && (TcpConnection.bytes_in_flight tcp == 0) && not s.fully_acked
            then true
            else s.fully_acked;
      }

  abbrev pub wants_datagram : SpongeSocket Adapter → Bool
  wants_datagram s = TcpConnection.active s.tcp

  -- The end of the owner's data, and what is done if rule 2 is cancelled.
  abbrev pub ended : SpongeSocket Adapter → SpongeSocket Adapter
  ended s = record s { tcp = TcpConnection.end_input_stream s.tcp; outbound_shutdown = true }

  -- Rule 2: the owner has written `bytes`.
  unfoldable pub bytes_in : SpongeSocket Adapter → List ℕ → Bool → Option (SpongeSocket Adapter)
  bytes_in s bytes eof =
      let (tcp, amount_written) = TcpConnection.write s.tcp bytes in
      let written = record s { tcp = tcp } in
      if not (amount_written == length bytes)
      then none
      else some (if eof then ended written else written)

  abbrev pub wants_bytes : SpongeSocket Adapter → Bool
  wants_bytes s =
      TcpConnection.active s.tcp
      && not s.outbound_shutdown
      && ltb 0 (TcpConnection.remaining_outbound_capacity s.tcp)

  -- What rule 3 offers to the owner.
  abbrev pub offered : SpongeSocket Adapter → List ℕ
  offered s =
      let inbound = inbound_stream s.tcp in
      ByteStream.peek_output inbound (min 65536 (ByteStream.buffer_size inbound))

  -- Rule 3: the owner has taken `bytes_written` of the bytes offered.
  unfoldable pub bytes_out : SpongeSocket Adapter → ℕ → SpongeSocket Adapter
  bytes_out s bytes_written =
      let inbound = ByteStream.pop_output (inbound_stream s.tcp) bytes_written in
      record s {
        tcp = with_inbound s.tcp inbound;
        inbound_shutdown =
            if ByteStream.eof inbound || inbound.error then true else s.inbound_shutdown;
      }

  abbrev pub has_bytes : SpongeSocket Adapter → Bool
  has_bytes s =
      let inbound = inbound_stream s.tcp in
      not (ByteStream.buffer_empty inbound)
      || ((ByteStream.eof inbound || inbound.error) && not s.inbound_shutdown)

  -- The loop of rule 4.
  unfoldable pub write_all :
      (Adapter → TcpSegment → Option Adapter) → Adapter → List TcpSegment → Option Adapter
  write_all adapter_write a [] = some a
  write_all adapter_write a (seg ∷ rest) =
      adapter_write a seg and_then λ written. write_all adapter_write written rest

  -- Rule 4: the segments go out.
  unfoldable pub datagrams_out :
      (Adapter → TcpSegment → Option Adapter) → SpongeSocket Adapter → Option (SpongeSocket Adapter)
  datagrams_out adapter_write s =
      write_all adapter_write s.datagram_adapter s.tcp.segments_out and_then λ written.
      some (record s { tcp = record (s.tcp) { segments_out = [] }; datagram_adapter = written })

  -- The end of a round of `_tcp_loop`, with the time since the last one.
  unfoldable pub ticked : (Adapter → ℕ → Adapter) → SpongeSocket Adapter → ℕ → SpongeSocket Adapter
  ticked adapter_tick s ms =
      if TcpConnection.active s.tcp
      then record s {
        tcp = TcpConnection.tick s.tcp ms;
        datagram_adapter = adapter_tick s.datagram_adapter ms;
      }
      else s
