-- ===== src/Router.antt =====
-- libsponge/router.hh and router.cc: the routing table, and what becomes of a datagram. Addresses and
-- interfaces are those of their own classes: here any types, with `from_ipv4_numeric` and
-- `send_datagram` as parameters.
pub mod LongestPrefix
pub mod Forward
pub mod Async
pub mod Queues
pub mod Drain
mod Tests
use Prim.Native.Nat.{bit_and}
use csed353_computer_network.Ipv4.{InternetDatagram}
use csed353_computer_network.Prelude.{
  ℕ, zero, suc, ◌-◌, ◌*◌, ◌%◌, ◌^◌, Bool, true, false, Option, none, some, List, [], ◌∷◌, ltb, ◌==◌,
  if◌then◌else◌, ◌and_then◌, get_elem?, set, u32_mod,
}

pub record Route (Address : Type 0) : Type 0 where
  pub route_prefix : ℕ
  pub prefix_length : ℕ
  pub next_hop : Option Address
  pub interface_num : ℕ

-- The mask of a prefix length. A shift of a `uint32_t` by a length up to 32.
abbrev pub bitmask : ℕ → ℕ
bitmask prefix_length =
    if prefix_length == 0 then 0 else (u32_mod - 1) * 2 ^ (32 - prefix_length) % u32_mod

-- `dst`, masked, is the prefix of the route, masked.
unfoldable pub prefix_matches : ℕ → ℕ → ℕ → Bool
prefix_matches route_prefix prefix_length dst =
    bit_and route_prefix (bitmask prefix_length) == bit_and dst (bitmask prefix_length)

module _ {Address : Type 0} where
  abbrev pub matches : Route Address → ℕ → Bool
  matches r dst = prefix_matches r.route_prefix r.prefix_length dst

  -- The loop of `add_route`.
  unfoldable pub add_route : List (Route Address) → Route Address → List (Route Address)
  add_route [] new_route = new_route ∷ []
  add_route (r ∷ rest) new_route =
      let later = add_route rest new_route in
      if ltb r.prefix_length new_route.prefix_length then new_route ∷ r ∷ rest else r ∷ later

  -- The loop of `route_one_datagram`, up to its `break`.
  unfoldable pub first_match : List (Route Address) → ℕ → Option (Route Address)
  first_match [] dst = none
  first_match (r ∷ rest) dst =
      let later = first_match rest dst in if matches r dst then some r else later

-- The datagram with the time to live that the router leaves it.
abbrev pub aged : InternetDatagram → InternetDatagram
aged dgram = record dgram { header = record (dgram.header) { ttl = dgram.header.ttl - 1 } }

module _ {Address Interface : Type 0} (from_ipv4_numeric : ℕ → Address)
    (send_datagram : Interface → InternetDatagram → Address → Option Interface) where
  -- The address that a datagram is sent to.
  abbrev pub hop : Option Address → ℕ → Address
  hop none dst = from_ipv4_numeric dst
  hop (some next_hop) dst = next_hop

  -- `interface(N).send_datagram(..)`, with what is found at N: `at` throws for an interface that is
  -- not there, and `none` stands for an exception.
  abbrev pub send_to :
      Option Interface → List Interface → ℕ → InternetDatagram → Address → Option (List Interface)
  send_to none interfaces n dgram address = none
  send_to (some interface) interfaces n dgram address =
      send_datagram interface dgram address and_then λ sent. some (set interfaces n sent)

  -- What the router does with the route that it has found.
  abbrev pub send_by :
      Option (Route Address) → List Interface → InternetDatagram → Option (List Interface)
  send_by none interfaces dgram = some interfaces
  send_by (some r) interfaces dgram =
      send_to (get_elem? interfaces r.interface_num) interfaces r.interface_num (aged dgram)
        (hop r.next_hop dgram.header.dst)

  -- The interfaces after a datagram was routed.
  unfoldable pub route_one_datagram :
      List (Route Address) → List Interface → InternetDatagram → Option (List Interface)
  route_one_datagram table interfaces dgram =
      if ltb 1 dgram.header.ttl
      then send_by (first_match table dgram.header.dst) interfaces dgram
      else some interfaces
