-- ===== src/TcpState/Names.antt =====
-- What the names of libsponge/tcp_helpers/tcp_state.hh say of an endpoint of
-- libsponge/tcp_connection.cc.
use csed353_computer_network.Prelude.{◌≡◌, refl, ap, true}
use csed353_computer_network.ByteStream
use csed353_computer_network.WrappingIntegers.{WrappingInt32}
use csed353_computer_network.StreamReassembler
use csed353_computer_network.TcpSegment.{TcpSegment}
use csed353_computer_network.TcpConfig.{TcpConfig}
use csed353_computer_network.TcpReceiver
use csed353_computer_network.TcpSender
use csed353_computer_network.TcpConnection
use csed353_computer_network.TcpConnection.{TcpConnection}
use csed353_computer_network.TcpConnection.Lifecycle.{send_rst_lem}
use csed353_computer_network.TcpState.{
  from_state, state, receiver_summary, sender_summary, listen, syn_sent, reset,
}

-- A new endpoint is listening, and one that then connects has sent its SYN.
pub connect-state :
    (cfg : TcpConfig) (random : WrappingInt32)
    → (state (TcpConnection.new cfg random) ≡ from_state listen)
      × (state (TcpConnection.connect (TcpConnection.new cfg random)) ≡ from_state syn_sent)
unfolding receiver_summary sender_summary TcpConnection.new TcpConnection.connect TcpReceiver.new
    TcpReceiver.ackno TcpSender.new TcpSender.fill_window TcpSender.transmit
    TcpConnection.flush_sender TcpConnection.flush_queue ByteStream.new StreamReassembler.new
connect-state cfg random = (refl, refl)

-- An endpoint that sends a reset, and an active one that receives a segment with the RST flag, are
-- reset.
pub reset-state :
    (c : TcpConnection) (seg : TcpSegment)
    → c.is_active ≡ true
    → seg.header.rst ≡ true
    → (state (TcpConnection.send_rst c) ≡ from_state reset)
      × (state (TcpConnection.segment_received c seg) ≡ from_state reset)
unfolding TcpConnection.segment_received receiver_summary sender_summary ByteStream.set_error
reset-state c seg h h' = (ap state (send_rst_lem c), rw (h, h') refl)
