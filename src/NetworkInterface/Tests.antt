-- ===== src/NetworkInterface/Tests.antt =====
-- Two interfaces, and a datagram of three bytes between them.
use csed353_computer_network.Prelude.{
  ◌≡◌, refl, none, some, List, [], ◌∷◌, ◌++◌, arith, lookup, Distinct,
}
use csed353_computer_network.Ipv4.{InternetDatagram, default_header, header_fields}
use csed353_computer_network.Ipv4
use csed353_computer_network.Ipv4.Roundtrip.{serialize_lem}
use csed353_computer_network.Buffers.{from_string, list_size}
use csed353_computer_network.Ethernet.{EthernetAddress}
use csed353_computer_network.NetworkInterface.{
  NetworkInterface, CacheEntry, new, send_datagram, recv_frame, send_queued, tick,
}
use csed353_computer_network.NetworkInterface.Queue.{
  buffers, ipv4_frame, frames_for, others, Sendable, with_queue, with_frames, send_queued-all,
}
use csed353_computer_network.NetworkInterface.Resolve.{request_frame, reply_frame, resolve}
use csed353_computer_network.NetworkInterface.Expire.{kept, older_timer, lookup-tick}
use csed353_computer_network.NetworkInterface.Valid.{IsValid, Waits}
use csed353_computer_network.NetworkInterface.Run.{Call, send, receive, pass, calls, calls-IsValid}
use csed353_computer_network.NetworkInterface.Requests.{requests}
use csed353_computer_network.NetworkInterface.OneRequest.{calls-requests}

abbrev left_address : EthernetAddress
left_address = 2 ∷ 0 ∷ 0 ∷ 0 ∷ 0 ∷ 1 ∷ []

abbrev right_address : EthernetAddress
right_address = 2 ∷ 0 ∷ 0 ∷ 0 ∷ 0 ∷ 2 ∷ []

abbrev left : NetworkInterface
left = new left_address 0x0a000001

abbrev right : NetworkInterface
right = new right_address 0x0a000002

abbrev dgram : InternetDatagram
dgram = record {
  header = record default_header { len = 23; src = 0x0a000001; dst = 0x0a000002 };
  payload = from_string (7 ∷ []) ∷ from_string (8 ∷ 9 ∷ []) ∷ [];
}

dgram_serializes : Ipv4.serialize dgram ≡ some (buffers dgram)
unfolding list_size
dgram_serializes = rw (serialize_lem dgram (omega arith)) refl

resolve_example :
    (n1 peer1 n2 : NetworkInterface) × (send_datagram left dgram 0x0a000002 ≡ some n1)
    × (n1.frames_out ≡ [] ++ (request_frame left 0x0a000002 ∷ []))
    × (recv_frame right (request_frame left 0x0a000002) ≡ some (none, peer1))
    × (peer1.frames_out
        ≡ ([] ++ frames_for right_address left_address 0x0a000001 [])
          ++ (reply_frame left right ∷ []))
    × (recv_frame n1 (reply_frame left right) ≡ some (none, n2))
    × (n2.frames_out
        ≡ n1.frames_out
          ++ (frames_for left_address right_address 0x0a000002 []
              ++ (ipv4_frame left_address right_address dgram ∷ [])))
    × (lookup 0x0a000002 n2.ethernet_addr_cache
        ≡ some (record { address = right_address; timer = 0 }))
    × (lookup 0x0a000002 n2.arp_timer ≡ none)
unfolding lookup Sendable
resolve_example =
    resolve left right dgram (omega arith) (omega arith) refl refl tt tt dgram_serializes

-- The left interface with a datagram that waits, and with a cached address.
abbrev busy : NetworkInterface
busy = record left {
  queueing_ip_datagrams = (dgram, 0x0a000002) ∷ (dgram, 0x0a000003) ∷ [];
  ethernet_addr_cache = (0x0a000002, record { address = right_address; timer = 29000 }) ∷ [];
  arp_timer = (0x0a000003, 400) ∷ [];
}

abbrev cached : CacheEntry
cached = record { address = right_address; timer = 29000 }

send_queued-all_example :
    send_queued 2 busy 0x0a000002 0
    ≡ some (
        with_queue
          (with_frames busy
            (frames_for left_address right_address 0x0a000002 busy.queueing_ip_datagrams))
          (others 0x0a000002 busy.queueing_ip_datagrams))
unfolding lookup Sendable
send_queued-all_example =
    send_queued-all busy 0x0a000002 cached refl
      ((λ _. dgram_serializes), ((λ _. dgram_serializes), tt))

lookup-tick_example :
    (lookup 0x0a000002 (tick busy 1000).ethernet_addr_cache ≡ kept 1000 (some cached))
    × (lookup 0x0a000002 (tick busy 1000).arp_timer ≡ older_timer 1000 none)
unfolding lookup Distinct
lookup-tick_example = lookup-tick busy 1000 0x0a000002 (refl, tt)

abbrev some_calls : List Call
some_calls =
    send dgram 0x0a000002
    ∷ pass 4000
    ∷ receive (reply_frame left right)
    ∷ send dgram 0x0a000003
    ∷ []

calls-IsValid_example :
    (n : NetworkInterface) × (calls (new left_address 0x0a000001) some_calls ≡ some n) × IsValid n
calls-IsValid_example =
    calls-IsValid left_address 0x0a000001 some_calls
      (dgram_serializes, (tt, (omega arith, (dgram_serializes, tt))))

-- The left interface 400 milliseconds after it asked.
abbrev asking : NetworkInterface
asking = record left { arp_timer = (0x0a000002, 400) ∷ [] }

asking-IsValid : IsValid asking
unfolding lookup Distinct Waits
asking-IsValid = record { distinct = tt; apart = λ k there. refl; waits = tt }

calls-requests_example :
    (n' : NetworkInterface) × (calls asking some_calls ≡ some n')
    × (requests 0x0a000002 n'.frames_out ≡ requests 0x0a000002 [])
unfolding lookup
calls-requests_example =
    calls-requests 0x0a000002 400 asking some_calls asking-IsValid (omega arith)
      (dgram_serializes, (tt, (omega arith, (dgram_serializes, tt)))) (omega arith) refl
      (omega arith)
