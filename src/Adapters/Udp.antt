-- ===== src/Adapters/Udp.antt =====
-- `TCPOverUDPSocketAdapter` of libsponge/tcp_helpers/fd_adapter.hh and fd_adapter.cc. The datagram that
-- is received from the socket is an argument, the one that is sent a result.
use csed353_computer_network.Prelude.{
  ℕ, ◌≤◌, ◌≡◌, refl, Bool, true, false, not, ◌&&◌, Option, none, some, List, ◌==◌, if◌then◌else◌,
  ◌and_then◌, arith, length,
}
use csed353_computer_network.Parser.{is_error}
use csed353_computer_network.Checksum.Sum.{AllBytes}
use csed353_computer_network.Buffers.{concatenate}
use csed353_computer_network.TcpSegment.{TcpSegment, empty_segment}
use csed353_computer_network.TcpSegment.Wire
use csed353_computer_network.TcpSegment.Header.{InRange}
use csed353_computer_network.TcpSegment.Roundtrip.{buffers, stamped, parse-serialize_segment}
use csed353_computer_network.Adapters.{Address, FdAdapterBase, set_listening, with_ports}

-- `==` of two addresses.
abbrev pub same_address : Address → Address → Bool
same_address x y = (x.ip == y.ip) && (x.port == y.port)

-- The end of `read`, once the segment is parsed.
unfoldable pub target_source :
    FdAdapterBase → Address → TcpSegment → Option TcpSegment × FdAdapterBase
target_source a source_address seg =
    if a.listen
    then (if seg.header.syn && not seg.header.rst
        then (
          some seg,
          set_listening (record a { cfg = record (a.cfg) { destination = source_address } }) false,
        )
        else (none, a))
    else (some seg, a)

unfoldable pub udp_read : FdAdapterBase → Address → List ℕ → Option TcpSegment × FdAdapterBase
udp_read a source_address payload =
    let parsed = Wire.parse empty_segment payload 0 in
    if not a.listen && not (same_address source_address a.cfg.destination)
    then (none, a)
    else (if is_error parsed.0 then (none, a) else target_source a source_address parsed.1)

-- Where the datagram is sent and what it carries.
unfoldable pub udp_write : FdAdapterBase → TcpSegment → Option (Address × List ℕ)
udp_write a seg = Wire.serialize (with_ports a seg) 0 and_then λ payload.
    some (a.cfg.destination, concatenate payload)

-- Whatever the ports that the connection of `b` has, a segment that another adapter writes is read by
-- `b`, with the ports of the writer and its checksum filled in, if it comes from the address that `b` is
-- connected to: the ports in the segment are not looked at. Its fields have to fit their types.
pub udp_read-udp_write :
    (a b : FdAdapterBase) (seg : TcpSegment)
    → InRange (with_ports a seg).header
    → AllBytes seg.payload
    → length seg.payload ≤ 65535
    → b.listen ≡ false
    → (bytes : List ℕ) × (udp_write a seg ≡ some (a.cfg.destination, bytes))
      × (udp_read b b.cfg.destination bytes
          ≡ (some (record seg { header = stamped (with_ports a seg) 0 }), b))
unfolding udp_write udp_read target_source
udp_read-udp_write a b seg r bytes short connected =
    let t =
      parse-serialize_segment (with_ports a seg) empty_segment 0 r bytes short (omega arith) in
    let ip : (b.cfg.destination.ip == b.cfg.destination.ip) ≡ true = ground arith in
    let port : (b.cfg.destination.port == b.cfg.destination.port) ≡ true = ground arith in
    (concatenate (buffers (with_ports a seg) 0), rw (t.0) refl, rw (connected, ip, port, t.1) refl)
