-- ===== src/Adapters.antt =====
-- libsponge/tcp_helpers/fd_adapter.hh and tcp_config.hh: what the adapters between TCP and a device have
-- in common, and tcp_over_ip.cc, fd_adapter.cc, tuntap_adapter.hh, tuntap_adapter.cc and
-- lossy_fd_adapter.hh. A device is not modelled: what is read from it is an argument, what is written to
-- it a result. An `Address` is its `ipv4_numeric` and its `port`. `none` stands for an exception, unless
-- it is the empty optional that a `read` returns.
pub mod Related
pub mod Wrap
pub mod Tun
pub mod Tap
pub mod Udp
pub mod Lossy
mod Tests
use csed353_computer_network.Prelude.{
  ℕ, zero, suc, ◌+◌, ◌*◌, ◌%◌, ◌<◌, Bool, true, false, not, ◌&&◌, ◌||◌, Option, none, some, List,
  [], ◌∷◌, ◌++◌, ltb, ◌==◌, if◌then◌else◌, ◌and_then◌, length, map, u16_mod,
}
use csed353_computer_network.Parser.{ParseResult, is_error}
use csed353_computer_network.Ipv4.{
  InternetDatagram, Ipv4Header, default_header, proto_tcp, pseudo_cksum,
}
use csed353_computer_network.Ipv4
use csed353_computer_network.Buffers.{str, to_buffer, concatenate}
use csed353_computer_network.Ethernet.{EthernetFrame, EthernetAddress}
use csed353_computer_network.Ethernet
use csed353_computer_network.Arp
use csed353_computer_network.TcpSegment.{TcpSegment, empty_segment}
use csed353_computer_network.TcpSegment.Wire
use csed353_computer_network.NetworkInterface.{NetworkInterface, blank_datagram}
use csed353_computer_network.NetworkInterface

pub record Address : Type 0 where
  pub ip : ℕ
  pub port : ℕ

pub record FdAdapterConfig : Type 0 where
  pub source : Address
  pub destination : Address
  pub loss_rate_dn : ℕ
  pub loss_rate_up : ℕ

abbrev no_address : Address
no_address = record { ip = 0; port = 0 }

abbrev pub default_config : FdAdapterConfig
default_config = record {
  source = no_address;
  destination = no_address;
  loss_rate_dn = 0;
  loss_rate_up = 0;
}

pub record FdAdapterBase : Type 0 where
  pub cfg : FdAdapterConfig
  pub listen : Bool

abbrev pub set_listening : FdAdapterBase → Bool → FdAdapterBase
set_listening a l = record a { listen = l }

-- The end of `unwrap_tcp_in_ip`: the segment has to come from the peer.
unfoldable pub from_peer : FdAdapterBase → TcpSegment → Option TcpSegment × FdAdapterBase
from_peer a seg =
    if not (seg.header.sport == a.cfg.destination.port) then (none, a) else (some seg, a)

-- The adapter once it has been connected by a SYN.
abbrev pub targeted : FdAdapterBase → InternetDatagram → TcpSegment → FdAdapterBase
targeted a dgram seg =
    set_listening
      (record a {
        cfg = record (a.cfg) {
          source = record { ip = dgram.header.dst; port = a.cfg.source.port };
          destination = record { ip = dgram.header.src; port = seg.header.sport };
        };
      })
      false

-- `unwrap_tcp_in_ip` once the segment is for this end.
unfoldable pub target :
    FdAdapterBase → InternetDatagram → TcpSegment → Option TcpSegment × FdAdapterBase
target a dgram seg =
    if a.listen
    then (if seg.header.syn && not seg.header.rst
        then from_peer (targeted a dgram seg) seg
        else (none, a))
    else from_peer a seg

-- `unwrap_tcp_in_ip` once the payload is parsed.
abbrev pub unwrap_parsed :
    FdAdapterBase → InternetDatagram → ParseResult × TcpSegment → Option TcpSegment × FdAdapterBase
unwrap_parsed a dgram parsed =
    if is_error parsed.0
    then (none, a)
    else (if not (parsed.1.header.dport == a.cfg.source.port)
        then (none, a)
        else target a dgram parsed.1)

-- The payload is turned into one buffer, which throws if it has several.
unfoldable pub unwrap_tcp_in_ip :
    FdAdapterBase → InternetDatagram → Option (Option TcpSegment × FdAdapterBase)
unwrap_tcp_in_ip a dgram =
    if not a.listen && not (dgram.header.dst == a.cfg.source.ip)
    then some (none, a)
    else (if not a.listen && not (dgram.header.src == a.cfg.destination.ip)
        then some (none, a)
        else (if not (dgram.header.proto == proto_tcp)
            then some (none, a)
            else (to_buffer dgram.payload and_then λ buffer. some (
                unwrap_parsed a dgram
                  (Wire.parse empty_segment (str buffer) (pseudo_cksum dgram.header))))))

-- The segment with the ports of the connection.
abbrev pub with_ports : FdAdapterBase → TcpSegment → TcpSegment
with_ports a seg = record seg {
  header = record (seg.header) { sport = a.cfg.source.port; dport = a.cfg.destination.port };
}

-- The header that `wrap_tcp_in_ip` fills in.
abbrev pub wrap_header : FdAdapterBase → TcpSegment → Ipv4Header
wrap_header a seg = record default_header {
  src = a.cfg.source.ip;
  dst = a.cfg.destination.ip;
  len = (default_header.hlen * 4 + seg.header.doff * 4 + length seg.payload) % u16_mod;
}

-- The datagram; the segment that is passed by reference is left as `with_ports`.
unfoldable pub wrap_tcp_in_ip : FdAdapterBase → TcpSegment → Option InternetDatagram
wrap_tcp_in_ip a seg =
    let header = wrap_header a seg in
    Wire.serialize (with_ports a seg) (pseudo_cksum header) and_then λ payload.
    some (record { header = header; payload = payload })

-- `TCPOverIPv4OverTunFdAdapter::read`, with the bytes that were read from the device.
unfoldable pub tun_read : FdAdapterBase → List ℕ → Option (Option TcpSegment × FdAdapterBase)
tun_read a bytes =
    let parsed = Ipv4.parse blank_datagram bytes in
    if is_error parsed.0 then some (none, a) else unwrap_tcp_in_ip a parsed.1

-- The bytes that `TCPOverIPv4OverTunFdAdapter::write` writes to the device.
unfoldable pub tun_write : FdAdapterBase → TcpSegment → Option (List ℕ)
tun_write a seg = wrap_tcp_in_ip a seg and_then λ dgram.
    Ipv4.serialize dgram and_then λ buffers. some (concatenate buffers)

pub record TcpOverIpv4OverEthernetAdapter : Type 0 where
  pub base : FdAdapterBase
  pub interface : NetworkInterface
  pub next_hop : ℕ

-- The bytes that are written to the device for a frame.
abbrev pub written : EthernetFrame → List ℕ
written frame = concatenate (Ethernet.serialize frame)

-- What `send_pending` writes to the device, and the interface after it.
unfoldable pub send_pending : NetworkInterface → List (List ℕ) × NetworkInterface
send_pending n = (map written n.frames_out, record n { frames_out = [] })

-- The adapter with its interface after `send_pending`, and what was written.
abbrev pub pending :
    TcpOverIpv4OverEthernetAdapter
    → NetworkInterface
    → List (List ℕ) × TcpOverIpv4OverEthernetAdapter
pending t n = let sent = send_pending n in (sent.0, record t { interface = sent.1 })

-- The datagram that the interface returned is unwrapped.
abbrev pub unwrap_received :
    TcpOverIpv4OverEthernetAdapter
    → Option InternetDatagram
    → Option (Option TcpSegment × TcpOverIpv4OverEthernetAdapter)
unwrap_received t none = some (none, t)
unwrap_received t (some dgram) = unwrap_tcp_in_ip t.base dgram and_then λ unwrapped.
    some (unwrapped.0, record t { base = unwrapped.1 })

abbrev pub blank_frame : EthernetFrame
blank_frame = record {
  header = record { dst = Arp.no_address; src = Arp.no_address; type = 0 };
  payload = [];
}

-- `TCPOverIPv4OverEthernetAdapter::read`, with the bytes that were read: the segment, what is written,
-- and the adapter.
unfoldable pub ethernet_read :
    TcpOverIpv4OverEthernetAdapter
    → List ℕ
    → Option (Option TcpSegment × List (List ℕ) × TcpOverIpv4OverEthernetAdapter)
ethernet_read t bytes =
    let parsed = Ethernet.parse blank_frame bytes in
    if is_error parsed.0
    then some (none, [], t)
    else (NetworkInterface.recv_frame t.interface parsed.1 and_then λ received.
        let sent = pending t received.1 in
        unwrap_received sent.1 received.0 and_then λ unwrapped.
        some (unwrapped.0, sent.0, unwrapped.1))

unfoldable pub ethernet_tick :
    TcpOverIpv4OverEthernetAdapter → ℕ → List (List ℕ) × TcpOverIpv4OverEthernetAdapter
ethernet_tick t ms_since_last_tick =
    pending t (NetworkInterface.tick t.interface ms_since_last_tick)

unfoldable pub ethernet_write :
    TcpOverIpv4OverEthernetAdapter
    → TcpSegment
    → Option (List (List ℕ) × TcpOverIpv4OverEthernetAdapter)
ethernet_write t seg = wrap_tcp_in_ip t.base seg and_then λ dgram.
    NetworkInterface.send_datagram t.interface dgram t.next_hop and_then λ sent.
    some (pending t sent)
