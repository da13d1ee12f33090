-- ===== src/Adapters/Tests.antt =====
-- Two ends of a connection, and a segment with two bytes between them.
use csed353_computer_network.Prelude.{
  ℕ, ◌≡◌, refl, true, false, none, some, List, [], ◌∷◌, arith, lookup,
}
use csed353_computer_network.Buffers.{to_buffer}
use csed353_computer_network.Ipv4.{InternetDatagram}
use csed353_computer_network.TcpSegment.{TcpSegment}
use csed353_computer_network.TcpSegment
use csed353_computer_network.NetworkInterface.{NetworkInterface, CacheEntry}
use csed353_computer_network.NetworkInterface
use csed353_computer_network.Adapters.{
  FdAdapterBase, TcpOverIpv4OverEthernetAdapter, Address, default_config, unwrap_tcp_in_ip,
  tun_read, tun_write, ethernet_read, ethernet_write,
}
use csed353_computer_network.Adapters.Related.{Verdict, unwrap-Related}
use csed353_computer_network.Adapters.Wrap.{Facing, wrapped, carried, arrived}
use csed353_computer_network.Adapters.Tun.{tun_read-tun_write, tun_read-tun_write_syn}
use csed353_computer_network.Adapters.Tap.{ethernet_read-ethernet_write}

abbrev left_end : Address
left_end = record { ip = 0x0a000001; port = 1080 }

abbrev right_end : Address
right_end = record { ip = 0x0a000002; port = 80 }

abbrev left : FdAdapterBase
left = record {
  cfg = record default_config { source = left_end; destination = right_end };
  listen = false;
}

abbrev right : FdAdapterBase
right = record {
  cfg = record default_config { source = right_end; destination = left_end };
  listen = false;
}

abbrev listening : FdAdapterBase
listening = record {
  cfg = record default_config { source = record { ip = 0; port = 80 } };
  listen = true;
}

abbrev syn_segment : TcpSegment
syn_segment = record {
  header = record TcpSegment.default_header { seqno = 70000; syn = true };
  payload = 7 ∷ 8 ∷ [];
}

-- A datagram with a SYN for a port that is listened on, in one buffer, with a checksum of 5 in its header.
abbrev incoming : InternetDatagram
incoming = arrived left syn_segment 5

unwrap-Related_example : Verdict listening incoming (unwrap_tcp_in_ip listening incoming)
unwrap-Related_example = unwrap-Related listening incoming

-- A datagram that was not serialized on the way is in two buffers, and cannot be unwrapped.
unwrap-wrapped : unwrap_tcp_in_ip right (wrapped left syn_segment) ≡ none
unfolding unwrap_tcp_in_ip to_buffer
unwrap-wrapped = refl

tun_read-tun_write_syn_example :
    (bytes : List ℕ) × (b' : FdAdapterBase) × (tun_write left syn_segment ≡ some bytes)
    × (tun_read listening bytes ≡ some (some (carried left syn_segment), b'))
    × Facing left b'
    × (b'.listen ≡ false)
tun_read-tun_write_syn_example =
    tun_read-tun_write_syn left listening syn_segment (omega arith) refl refl refl refl

tun_read-tun_write_example :
    (bytes : List ℕ) × (tun_write left syn_segment ≡ some bytes)
    × (tun_read right bytes ≡ some (some (carried left syn_segment), right))
tun_read-tun_write_example =
    tun_read-tun_write left right syn_segment (omega arith) (omega arith) refl

abbrev left_address : List ℕ
left_address = 2 ∷ 0 ∷ 0 ∷ 0 ∷ 0 ∷ 1 ∷ []

abbrev right_address : List ℕ
right_address = 2 ∷ 0 ∷ 0 ∷ 0 ∷ 0 ∷ 2 ∷ []

abbrev cached : CacheEntry
cached = record { address = right_address; timer = 20 }

abbrev left_tap : TcpOverIpv4OverEthernetAdapter
left_tap = record {
  base = left;
  interface = record (NetworkInterface.new left_address 0x0a000001) {
    ethernet_addr_cache = (0x0a000002, cached) ∷ [];
  };
  next_hop = 0x0a000002;
}

abbrev right_tap : TcpOverIpv4OverEthernetAdapter
right_tap = record {
  base = right;
  interface = NetworkInterface.new right_address 0x0a000002;
  next_hop = 0x0a000001;
}

ethernet_read-ethernet_write_example :
    (bytes : List ℕ) × (ethernet_write left_tap syn_segment ≡ some (bytes ∷ [], left_tap))
    × (ethernet_read right_tap bytes ≡ some (some (carried left syn_segment), [], right_tap))
unfolding lookup
ethernet_read-ethernet_write_example =
    ethernet_read-ethernet_write left_tap right_tap syn_segment cached (omega arith) (omega arith)
      refl (omega arith) (omega arith) refl refl refl
