-- ===== src/Router/Async.antt =====
-- `AsyncNetworkInterface` and `Router` of libsponge/router.hh, and `Router::route` of router.cc, with
-- the interfaces of libsponge/network_interface.cc. An `Address` is its `ipv4_numeric`.
use csed353_computer_network.Prelude.{
  ℕ, zero, suc, ◌-◌, Option, none, some, List, [], ◌∷◌, ◌++◌, ◌and_then◌, length, get_elem?, set,
  drop,
}
use csed353_computer_network.Ipv4.{InternetDatagram}
use csed353_computer_network.Ethernet.{EthernetFrame}
use csed353_computer_network.NetworkInterface.{NetworkInterface}
use csed353_computer_network.NetworkInterface
use csed353_computer_network.Router.{Route, route_one_datagram}

pub record AsyncNetworkInterface : Type 0 where
  pub interface : NetworkInterface
  pub datagrams_out : List InternetDatagram

abbrev pub push_received :
    AsyncNetworkInterface → Option InternetDatagram × NetworkInterface → AsyncNetworkInterface
push_received a (none, interface) = record a { interface = interface }
push_received a (some dgram, interface) = record {
  interface = interface;
  datagrams_out = a.datagrams_out ++ (dgram ∷ []);
}

unfoldable pub recv_frame : AsyncNetworkInterface → EthernetFrame → Option AsyncNetworkInterface
recv_frame a frame = NetworkInterface.recv_frame a.interface frame and_then λ received.
    some (push_received a received)

-- `send_datagram`, inherited from `NetworkInterface`.
unfoldable pub send_datagram :
    AsyncNetworkInterface → InternetDatagram → ℕ → Option AsyncNetworkInterface
send_datagram a dgram next_hop =
    NetworkInterface.send_datagram a.interface dgram next_hop and_then λ sent.
    some (record a { interface = sent })

pub record Router : Type 0 where
  pub interfaces : List AsyncNetworkInterface
  pub routing_table : List (Route ℕ)

-- The index of the new interface, and the router.
abbrev pub add_interface : Router → AsyncNetworkInterface → ℕ × Router
add_interface router interface =
    let interfaces = router.interfaces ++ (interface ∷ []) in
    (length interfaces - 1, record router { interfaces = interfaces })

abbrev pub from_ipv4_numeric : ℕ → ℕ
from_ipv4_numeric ip_address = ip_address

-- `route_one_datagram` on the interfaces of the router.
abbrev pub route_one :
    List (Route ℕ)
    → List AsyncNetworkInterface
    → InternetDatagram
    → Option (List AsyncNetworkInterface)
route_one table interfaces dgram =
    route_one_datagram from_ipv4_numeric send_datagram table interfaces dgram

-- The first datagram of a queue, and the queue without it.
abbrev pub first : List InternetDatagram → Option InternetDatagram
first [] = none
first (dgram ∷ rest) = some dgram

abbrev pub front : Option AsyncNetworkInterface → Option InternetDatagram
front none = none
front (some a) = first a.datagrams_out

abbrev pub queue_length : Option AsyncNetworkInterface → ℕ
queue_length none = 0
queue_length (some a) = length a.datagrams_out

abbrev pub pop : AsyncNetworkInterface → AsyncNetworkInterface
pop a = record a { datagrams_out = drop 1 a.datagrams_out }

-- `queue.pop()` on the i-th interface.
abbrev pub popped :
    Option AsyncNetworkInterface → List AsyncNetworkInterface → ℕ → List AsyncNetworkInterface
popped none interfaces i = interfaces
popped (some a) interfaces i = set interfaces i (pop a)

-- The loop of `route` over one queue: `none` if the fuel runs out, or if something throws.
unfoldable pub drain :
    ℕ → List (Route ℕ) → ℕ → List AsyncNetworkInterface → Option (List AsyncNetworkInterface)
drain zero table i interfaces = none
drain (suc fuel) table i interfaces = elim (front (get_elem? interfaces i)) [
  | none ↦ some interfaces
  | some dgram ↦ route_one table interfaces dgram and_then λ routed.
      drain fuel table i (popped (get_elem? routed i) routed i)
]

-- The loop of `route` over the interfaces, with the rounds left; each queue gets as much fuel as it has
-- datagrams, and one more for its last test.
unfoldable pub route_rounds :
    ℕ → List (Route ℕ) → ℕ → List AsyncNetworkInterface → Option (List AsyncNetworkInterface)
route_rounds zero table i interfaces = some interfaces
route_rounds (suc rounds) table i interfaces =
    drain (suc (queue_length (get_elem? interfaces i))) table i interfaces and_then λ drained.
    route_rounds rounds table (suc i) drained

unfoldable pub route : Router → Option Router
route router =
    route_rounds (length router.interfaces) router.routing_table 0 router.interfaces
    and_then λ routed. some (record router { interfaces = routed })
