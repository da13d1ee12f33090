-- ===== src/Adapters/Wrap.antt =====
-- What one adapter of libsponge/tcp_helpers/tcp_over_ip.cc wraps the adapter at the other end unwraps,
-- once the datagram was serialized and parsed.
use csed353_computer_network.Prelude.{
  ℕ, ◌+◌, ◌*◌, ◌^◌, ◌<◌, ◌≡◌, refl, true, false, some, ◌==◌, arith, length,
}
use csed353_computer_network.Parser.{no_error}
use csed353_computer_network.Checksum.Sum.{AllBytes}
use csed353_computer_network.Buffers.{to_buffer, concatenate}
use csed353_computer_network.Buffers.Views.{contiguous}
use csed353_computer_network.Ipv4.{InternetDatagram, pseudo_cksum}
use csed353_computer_network.TcpSegment.{TcpSegment, empty_segment}
use csed353_computer_network.TcpSegment.Wire
use csed353_computer_network.TcpSegment.Header.{InRange}
use csed353_computer_network.TcpSegment.Roundtrip.{buffers, stamped, parse-serialize_segment}
use csed353_computer_network.Adapters.{
  FdAdapterBase, from_peer, targeted, target, unwrap_tcp_in_ip, with_ports, wrap_header,
  wrap_tcp_in_ip,
}

-- A segment that `a` can wrap.
pub record Wraps (a : FdAdapterBase) (seg : TcpSegment) : Type 0 where
  pub source : a.cfg.source.ip < 2 ^ 32
  pub destination : a.cfg.destination.ip < 2 ^ 32
  pub header : InRange (with_ports a seg).header
  pub bytes : AllBytes seg.payload
  pub total : 20 + 4 * seg.header.doff + length seg.payload < 2 ^ 16

abbrev pub pseudo : FdAdapterBase → TcpSegment → ℕ
pseudo a seg = pseudo_cksum (wrap_header a seg)

-- The datagram that carries the segment, in two buffers, and the segment in it.
abbrev pub wrapped : FdAdapterBase → TcpSegment → InternetDatagram
wrapped a seg = record {
  header = wrap_header a seg;
  payload = buffers (with_ports a seg) (pseudo a seg);
}

abbrev pub carried : FdAdapterBase → TcpSegment → TcpSegment
carried a seg = record { header = stamped (with_ports a seg) (pseudo a seg); payload = seg.payload }

pseudo_small : (a : FdAdapterBase) (seg : TcpSegment) → Wraps a seg → pseudo a seg < 2 ^ 20
unfolding pseudo_cksum
pseudo_small a seg w = omega (arith, w.source, w.destination)

segment_lem :
    (a : FdAdapterBase) (seg : TcpSegment)
    → Wraps a seg
    → (Wire.serialize (with_ports a seg) (pseudo a seg)
        ≡ some (buffers (with_ports a seg) (pseudo a seg)))
      × (Wire.parse empty_segment
            (concatenate (buffers (with_ports a seg) (pseudo a seg)))
            (pseudo a seg)
          ≡ (no_error, carried a seg))
segment_lem a seg w =
    parse-serialize_segment (with_ports a seg) empty_segment (pseudo a seg) w.header w.bytes
      (omega (arith, w.total)) (pseudo_small a seg w)

pub wrap_lem :
    (a : FdAdapterBase) (seg : TcpSegment)
    → Wraps a seg
    → wrap_tcp_in_ip a seg ≡ some (wrapped a seg)
unfolding wrap_tcp_in_ip
wrap_lem a seg w = rw ((segment_lem a seg w).0) refl

-- Two ends of a connection.
pub record Facing (a b : FdAdapterBase) : Type 0 where
  pub ip : b.cfg.source.ip ≡ a.cfg.destination.ip
  pub port : b.cfg.source.port ≡ a.cfg.destination.port
  pub peer_ip : b.cfg.destination.ip ≡ a.cfg.source.ip
  pub peer_port : b.cfg.destination.port ≡ a.cfg.source.port

same : (x y : ℕ) → y ≡ x → (x == y) ≡ true
same x y e = ground arith

-- The datagram that arrives: it has any checksum in its header, and its payload is in one buffer.
abbrev pub arrived : FdAdapterBase → TcpSegment → ℕ → InternetDatagram
arrived a seg c = record {
  header = record (wrap_header a seg) { cksum = c };
  payload = contiguous (buffers (with_ports a seg) (pseudo a seg));
}

pseudo_with :
    (a : FdAdapterBase) (seg : TcpSegment) (c : ℕ)
    → pseudo_cksum (arrived a seg c).header ≡ pseudo a seg
unfolding pseudo_cksum
pseudo_with a seg c = refl

pub unwrap_lem :
    (a b : FdAdapterBase) (seg : TcpSegment) (c : ℕ)
    → Wraps a seg
    → Facing a b
    → b.listen ≡ false
    → unwrap_tcp_in_ip b (arrived a seg c) ≡ some (some (carried a seg), b)
unfolding unwrap_tcp_in_ip target from_peer to_buffer
unwrap_lem a b seg c w f connected =
    rw
      (
        connected,
        same a.cfg.destination.ip b.cfg.source.ip f.ip,
        same a.cfg.source.ip b.cfg.destination.ip f.peer_ip,
        pseudo_with a seg c,
        (segment_lem a seg w).1,
        same a.cfg.destination.port b.cfg.source.port f.port,
        same a.cfg.source.port b.cfg.destination.port f.peer_port,
      )
      refl

pub unwrap_syn :
    (a b : FdAdapterBase) (seg : TcpSegment) (c : ℕ)
    → Wraps a seg
    → b.listen ≡ true
    → b.cfg.source.port ≡ a.cfg.destination.port
    → seg.header.syn ≡ true
    → seg.header.rst ≡ false
    → (b' : FdAdapterBase) × (unwrap_tcp_in_ip b (arrived a seg c)
        ≡ some (some (carried a seg), b'))
      × Facing a b'
      × (b'.listen ≡ false)
unfolding unwrap_tcp_in_ip target from_peer to_buffer
unwrap_syn a b seg c w listening port syn rst = (
  targeted b (arrived a seg c) (carried a seg),
  rw
      (
        listening,
        pseudo_with a seg c,
        (segment_lem a seg w).1,
        same a.cfg.destination.port b.cfg.source.port port,
        syn,
        rst,
        same a.cfg.source.port a.cfg.source.port refl,
      )
      refl,
  record { ip = refl; port = port; peer_ip = refl; peer_port = refl },
  refl,
)
