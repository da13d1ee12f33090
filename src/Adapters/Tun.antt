-- ===== src/Adapters/Tun.antt =====
-- What one adapter of libsponge/tcp_helpers/tuntap_adapter.hh writes to a TUN device the adapter at the
-- other end reads.
use csed353_computer_network.Prelude.{ℕ, ◌≡◌, false, some, List, arith, length, true, ap, ◌∙◌, refl}
use csed353_computer_network.Buffers.{list_size, concatenate}
use csed353_computer_network.Buffers.Views.{list_size-concatenate}
use csed353_computer_network.Ipv4.Header
use csed353_computer_network.Ipv4.Roundtrip
use csed353_computer_network.NetworkInterface.{blank_datagram}
use csed353_computer_network.TcpSegment.{TcpSegment}
use csed353_computer_network.TcpSegment.Roundtrip.{buffers, concatenate-buffers, length-wire}
use csed353_computer_network.Adapters.{
  FdAdapterBase, with_ports, wrap_header, tun_read, tun_write, unwrap_tcp_in_ip,
}
use csed353_computer_network.Adapters.Wrap.{
  Wraps, Facing, pseudo, wrapped, carried, arrived, wrap_lem, unwrap_lem, unwrap_syn,
}

pub wrapped-InRange :
    (a : FdAdapterBase) (seg : TcpSegment)
    → Wraps a seg
    → Header.InRange (list_size (wrapped a seg).payload) (wrap_header a seg)
wrapped-InRange a seg w =
    let out = buffers (with_ports a seg) (pseudo a seg) in
    let e =
      list_size-concatenate out
      ∙ ap length (concatenate-buffers (with_ports a seg) (pseudo a seg)) in
    let n = length-wire (with_ports a seg) (pseudo a seg) w.header in
    omega (arith, e, n, w.total, w.source, w.destination)

-- What the adapter writes is the datagram, and what it is parsed as is the one that arrives.
transfer :
    (a : FdAdapterBase) (seg : TcpSegment)
    → Wraps a seg
    → (bytes : List ℕ) × (tun_write a seg ≡ some bytes)
      × ((b : FdAdapterBase)
          → tun_read b bytes
            ≡ unwrap_tcp_in_ip b (arrived a seg (Roundtrip.checksum (wrap_header a seg))))
unfolding tun_write tun_read
transfer a seg w =
    let d = wrapped a seg in
    let r = Roundtrip.parse-serialize_datagram d blank_datagram (wrapped-InRange a seg w) in
    (concatenate (Roundtrip.wire d), rw (wrap_lem a seg w, r.0) refl, λ b. rw (r.2) refl)

-- A segment that is written by the adapter at one end of a connection is read by the one at the other
-- end, which is not listening, as the same segment, with the ports of the connection and its checksum
-- filled in, if the fields and the addresses fit their types and the datagram is shorter than 2 ^ 16.
pub tun_read-tun_write :
    (a b : FdAdapterBase) (seg : TcpSegment)
    → Wraps a seg
    → Facing a b
    → b.listen ≡ false
    → (bytes : List ℕ) × (tun_write a seg ≡ some bytes)
      × (tun_read b bytes ≡ some (some (carried a seg), b))
tun_read-tun_write a b seg w f connected =
    let t = transfer a seg w in
    let c = Roundtrip.checksum (wrap_header a seg) in
    (t.0, t.1, t.2 b ∙ unwrap_lem a b seg c w f connected)

-- A SYN without a RST that is written by an adapter for a port that another adapter listens on is read by
-- that one, with the ports of the connection and its checksum filled in, and connects it to the address
-- and port that the SYN comes from, so that the two face each other and it listens no more, if the fields
-- and the addresses fit their types and the datagram is shorter than 2 ^ 16.
pub tun_read-tun_write_syn :
    (a b : FdAdapterBase) (seg : TcpSegment)
    → Wraps a seg
    → b.listen ≡ true
    → b.cfg.source.port ≡ a.cfg.destination.port
    → seg.header.syn ≡ true
    → seg.header.rst ≡ false
    → (bytes : List ℕ) × (b' : FdAdapterBase) × (tun_write a seg ≡ some bytes)
      × (tun_read b bytes ≡ some (some (carried a seg), b'))
      × Facing a b'
      × (b'.listen ≡ false)
tun_read-tun_write_syn a b seg w listening port syn rst =
    let t = transfer a seg w in
    let c = Roundtrip.checksum (wrap_header a seg) in
    let u = unwrap_syn a b seg c w listening port syn rst in (t.0, u.0, t.1, t.2 b ∙ u.1, u.2, u.3)
