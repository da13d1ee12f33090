-- ===== src/Adapters/Tap.antt =====
-- What one `TCPOverIPv4OverEthernetAdapter` of libsponge/tcp_helpers/tuntap_adapter.cc writes to its
-- network the adapter at the other end reads.
use csed353_computer_network.Prelude.{ℕ, ◌≡◌, refl, false, some, List, [], ◌∷◌, map, arith, lookup}
use csed353_computer_network.Ipv4.Roundtrip
use csed353_computer_network.Ethernet.{EthernetFrame}
use csed353_computer_network.Ethernet.Roundtrip.{IsAddress, parse-serialize_frame}
use csed353_computer_network.NetworkInterface.{CacheEntry}
use csed353_computer_network.NetworkInterface.Queue.{buffers, ipv4_frame, send_cached}
use csed353_computer_network.NetworkInterface.Resolve.{serialize-buffers, recv_frame-sent}
use csed353_computer_network.TcpSegment.{TcpSegment}
use csed353_computer_network.Adapters.{
  TcpOverIpv4OverEthernetAdapter, blank_frame, wrap_header, written, send_pending, ethernet_read,
  ethernet_write,
}
use csed353_computer_network.Adapters.Wrap.{Wraps, Facing, wrapped, carried, wrap_lem, unwrap_lem}
use csed353_computer_network.Adapters.Tun.{wrapped-InRange}

abbrev pub tap_frame :
    TcpOverIpv4OverEthernetAdapter → TcpOverIpv4OverEthernetAdapter → TcpSegment → EthernetFrame
tap_frame t peer seg =
    ipv4_frame t.interface.ethernet_address peer.interface.ethernet_address (wrapped t.base seg)

write_lem :
    (t peer : TcpOverIpv4OverEthernetAdapter) (seg : TcpSegment) (cached : CacheEntry)
    → Wraps t.base seg
    → t.interface.frames_out ≡ []
    → lookup t.next_hop t.interface.ethernet_addr_cache ≡ some cached
    → cached.address ≡ peer.interface.ethernet_address
    → ethernet_write t seg ≡ some (written (tap_frame t peer seg) ∷ [], t)
unfolding ethernet_write send_pending
write_lem t peer seg cached w idle found known =
    rw
      (
        wrap_lem t.base seg w,
        send_cached t.interface (wrapped t.base seg) t.next_hop cached
            (buffers (wrapped t.base seg)) found
            (serialize-buffers (wrapped t.base seg) (wrapped-InRange t.base seg w)).0,
        known,
        idle,
      )
      refl

read_lem :
    (t peer : TcpOverIpv4OverEthernetAdapter) (seg : TcpSegment)
    → Wraps t.base seg
    → Facing t.base peer.base
    → peer.base.listen ≡ false
    → IsAddress t.interface.ethernet_address
    → IsAddress peer.interface.ethernet_address
    → ethernet_read peer (written (tap_frame t peer seg))
      ≡ some (
        some (carried t.base seg),
        map written peer.interface.frames_out,
        record peer { interface = record (peer.interface) { frames_out = [] } },
      )
unfolding ethernet_read send_pending
read_lem t peer seg w f connected src dst =
    let c = Roundtrip.checksum (wrap_header t.base seg) in
    rw
      (
        parse-serialize_frame (tap_frame t peer seg) blank_frame
            (record { dst = dst; src = src; type = omega arith }),
        recv_frame-sent peer.interface t.interface.ethernet_address (wrapped t.base seg)
            (wrapped-InRange t.base seg w),
        unwrap_lem t.base peer.base seg c w f connected,
      )
      refl

-- A segment that is written by an adapter whose interface has nothing to send and knows the Ethernet
-- address of the other end, which is its next hop, goes out as one frame, and that frame is read at the
-- other end, which is not listening, as the same segment, with the ports of the connection and its
-- checksum filled in; the interface at that end has then sent what it had to send. The addresses and the
-- fields have to fit their types, and the datagram has to be shorter than 2 ^ 16.
pub ethernet_read-ethernet_write :
    (t peer : TcpOverIpv4OverEthernetAdapter) (seg : TcpSegment) (cached : CacheEntry)
    → Wraps t.base seg
    → Facing t.base peer.base
    → peer.base.listen ≡ false
    → IsAddress t.interface.ethernet_address
    → IsAddress peer.interface.ethernet_address
    → t.interface.frames_out ≡ []
    → lookup t.next_hop t.interface.ethernet_addr_cache ≡ some cached
    → cached.address ≡ peer.interface.ethernet_address
    → (bytes : List ℕ) × (ethernet_write t seg ≡ some (bytes ∷ [], t))
      × (ethernet_read peer bytes
          ≡ some (
            some (carried t.base seg),
            map written peer.interface.frames_out,
            record peer { interface = record (peer.interface) { frames_out = [] } },
          ))
ethernet_read-ethernet_write t peer seg cached w f connected src dst idle found known = (
  written (tap_frame t peer seg),
  write_lem t peer seg cached w idle found known,
  read_lem t peer seg w f connected src dst,
)
