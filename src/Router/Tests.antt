-- ===== src/Router/Tests.antt =====
-- A router with two interfaces, each the list of what was sent on it, and a default route besides
-- one with a prefix of 8 bits.
use csed353_computer_network.Prelude.{
  ℕ, zero, suc, length, lookup, Distinct, get_or, ◌<◌, ◌≡◌, ◌≤◌, inl, inr, refl, true, false,
  Option, none, some, List, [], ◌∷◌, arith, get_elem?,
}
use csed353_computer_network.Buffers.{list_size}
use csed353_computer_network.Ipv4.{InternetDatagram}
use csed353_computer_network.Router.{
  Route, matches, prefix_matches, add_route, first_match, aged, route_one_datagram,
}
use csed353_computer_network.Router.Async.{AsyncNetworkInterface, Router, route}
use csed353_computer_network.Router.Queues.{AllValid, queues}
use csed353_computer_network.Router.Drain.{QueuesSerialize, route-empty}
use csed353_computer_network.NetworkInterface
use csed353_computer_network.NetworkInterface.Queue.{buffers}
use csed353_computer_network.NetworkInterface.Valid.{IsValid, Waits}
use csed353_computer_network.Ipv4
use csed353_computer_network.Ipv4.Roundtrip.{serialize_lem}
use csed353_computer_network.Router.LongestPrefix.{Among, add_routes}
use csed353_computer_network.Router.Forward.{sent, route_one_datagram-longest}

abbrev default_route : Route ℕ
default_route = record { route_prefix = 0; prefix_length = 0; next_hop = some 7; interface_num = 0 }

abbrev local_route : Route ℕ
local_route = record {
  route_prefix = 167772160;
  prefix_length = 8;
  next_hop = none;
  interface_num = 1;
}

abbrev routes : List (Route ℕ)
routes = default_route ∷ local_route ∷ []

abbrev dgram : InternetDatagram
dgram = record {
  header = record {
    ver = 4;
    hlen = 5;
    tos = 0;
    len = 20;
    id = 0;
    df = true;
    mf = false;
    offset = 0;
    ttl = 64;
    proto = 6;
    cksum = 0;
    src = 1;
    dst = 167772165;
  };
  payload = [];
}

abbrev Sent : Type 0
Sent = List (InternetDatagram × ℕ)

abbrev itself : ℕ → ℕ
itself n = n

abbrev send : Sent → InternetDatagram → ℕ → Option Sent
send sent_before d address = some ((d, address) ∷ sent_before)

abbrev idle_interfaces : List Sent
idle_interfaces = [] ∷ [] ∷ []

routed-run :
    route_one_datagram itself send (add_routes [] routes) idle_interfaces dgram
    ≡ some ([] ∷ ((aged dgram, 167772165) ∷ []) ∷ [])
unfolding route_one_datagram first_match add_route prefix_matches
routed-run = refl

route_one_datagram-longest_example :
    (r : Route ℕ) × (interface : Sent) × Among r routes
    × (matches r dgram.header.dst ≡ true)
    × (8 ≤ r.prefix_length)
    × (get_elem? idle_interfaces r.interface_num ≡ some interface)
    × (route_one_datagram itself send (add_routes [] routes) idle_interfaces dgram
        ≡ sent itself send idle_interfaces dgram r interface)
unfolding prefix_matches
route_one_datagram-longest_example =
    route_one_datagram-longest itself send idle_interfaces routes dgram local_route
      (omega arith, (omega arith, tt)) (omega arith) (inr (inl refl)) refl

-- Two interfaces, the first with a datagram to forward.
abbrev two_interfaces : List AsyncNetworkInterface
two_interfaces =
    record {
      interface = NetworkInterface.new (2 ∷ 0 ∷ 0 ∷ 0 ∷ 0 ∷ 1 ∷ []) 1;
      datagrams_out = dgram ∷ [];
    }
    ∷ record { interface = NetworkInterface.new (2 ∷ 0 ∷ 0 ∷ 0 ∷ 0 ∷ 2 ∷ []) 2; datagrams_out = [] }
    ∷ []

abbrev two_router : Router
two_router = record { interfaces = two_interfaces; routing_table = routes }

new-IsValid : (address : List ℕ) (ip : ℕ) → IsValid (NetworkInterface.new address ip)
unfolding Distinct Waits lookup
new-IsValid address ip = record { distinct = tt; apart = λ k there. refl; waits = tt }

dgram_serializes : Ipv4.serialize (aged dgram) ≡ some (buffers (aged dgram))
unfolding list_size
dgram_serializes = rw (serialize_lem (aged dgram) (omega arith)) refl

all_serialize : QueuesSerialize (queues two_interfaces)
all_serialize zero = (dgram_serializes, tt)
all_serialize (suc zero) = tt
all_serialize (suc (suc j)) = tt

route-empty_example :
    (is : List AsyncNetworkInterface) × (route two_router
      ≡ some (record two_router { interfaces = is }))
    × AllValid is
    × (length is ≡ 2)
    × ((j : ℕ) → j < 2 → get_or (queues is) j [] ≡ [])
route-empty_example =
    route-empty two_router (new-IsValid _ _, (new-IsValid _ _, tt)) (omega arith) all_serialize
