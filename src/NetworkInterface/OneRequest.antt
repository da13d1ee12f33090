-- ===== src/NetworkInterface/OneRequest.antt =====
-- Within five seconds `NetworkInterface` of libsponge/network_interface.cc does not ask for an address
-- twice, whatever is called in between.
use csed353_computer_network.Prelude.{
  ℕ, ◌+◌, ◌^◌, ◌<◌, ◌≡◌, refl, sym, ap, ◌∙◌, subst, some, List, [], ◌∷◌, ◌and_then◌, lookup, inl,
}
use csed353_computer_network.NetworkInterface.{NetworkInterface, arp_req_time, tick}
use csed353_computer_network.NetworkInterface.Send.{HasAddresses}
use csed353_computer_network.NetworkInterface.Valid.{IsValid}
use csed353_computer_network.NetworkInterface.Run.{
  Call, send, receive, pass, call, calls, AllWellFormed, tick-IsValid, call-IsValid,
}
use csed353_computer_network.NetworkInterface.Requests.{
  requests, some_injective, Quiet, Silent, send-Silent,
}
use csed353_computer_network.NetworkInterface.Silence.{moved_addresses, receive-Silent, tick-Silent}

-- The milliseconds that pass.
abbrev pub elapsed : List Call → ℕ
elapsed [] = 0
elapsed (send dgram next_hop_ip ∷ rest) = elapsed rest
elapsed (receive frame ∷ rest) = elapsed rest
elapsed (pass ms ∷ rest) = ms + elapsed rest

-- The next hops are 32-bit addresses.
abbrev pub HopsFit : List Call → Type 0
HopsFit [] = Unit
HopsFit (send dgram next_hop_ip ∷ rest) = (next_hop_ip < 2 ^ 32) × HopsFit rest
HopsFit (receive frame ∷ rest) = HopsFit rest
HopsFit (pass ms ∷ rest) = HopsFit rest

-- What the calls leave has no more requests.
abbrev pub NoMore : ℕ → NetworkInterface → List Call → Type 0
NoMore ip n cs =
    (n' : NetworkInterface) × (calls n cs ≡ some n')
    × (requests ip n'.frames_out ≡ requests ip n.frames_out)

first_then :
    (ip r : ℕ) (n n1 : NetworkInterface) (c : Call) (rest : List Call)
    → call n c ≡ some n1
    → Silent ip r n n1
    → NoMore ip n1 rest
    → NoMore ip n (c ∷ rest)
unfolding calls
first_then ip r n n1 c rest e s later =
    (later.0, ap (λ o. o and_then λ n'. calls n' rest) e ∙ later.1, later.2 ∙ s.requests)

calls-Silent :
    (ip : ℕ) (n : NetworkInterface) (cs : List Call)
    → IsValid n
    → HasAddresses n
    → AllWellFormed cs
    → HopsFit cs
    → Quiet ip (elapsed cs) n
    → NoMore ip n cs
unfolding calls
calls-Silent ip n [] v a good fits q = (n, refl, refl)
calls-Silent ip n (send dgram k ∷ rest) v a good fits q =
    let r = elapsed rest in
    let first = call-IsValid n (send dgram k) v good.0 in
    let s = send-Silent ip r n first.0 dgram k a fits.0 good.0 q first.1 in
    let a1 = moved_addresses n first.0 s.same_ethernet s.same_ip a in
    first_then ip r n first.0 (send dgram k) rest first.1 s
      (calls-Silent ip first.0 rest first.2 a1 good.1 fits.1 s.quiet)
calls-Silent ip n (receive frame ∷ rest) v a good fits q =
    let r = elapsed rest in
    let first = call-IsValid n (receive frame) v good.0 in
    let received = receive-Silent ip r n frame v a q good.0 in
    let s = subst (Silent ip r n) (some_injective (sym received.1 ∙ first.1)) received.2 in
    let a1 = moved_addresses n first.0 s.same_ethernet s.same_ip a in
    first_then ip r n first.0 (receive frame) rest first.1 s
      (calls-Silent ip first.0 rest first.2 a1 good.1 fits s.quiet)
calls-Silent ip n (pass ms ∷ rest) v a good fits q =
    let r = elapsed rest in
    let s = tick-Silent ip ms r n v q in
    let a1 = moved_addresses n (tick n ms) s.same_ethernet s.same_ip a in
    first_then ip r n (tick n ms) (pass ms) rest refl s
      (calls-Silent ip (tick n ms) rest (tick-IsValid n ms v) a1 good.1 fits s.quiet)

-- If a valid interface, whose addresses fit their types, asked for an address `t` milliseconds ago, then
-- whatever is called, in any order, with any frames received whose payload is in one buffer at most,
-- which is how `EthernetFrame::parse` leaves it, and with datagrams that can be serialized sent to 32-bit
-- addresses, nothing throws, and it sends no other request for that address while fewer than 5000
-- milliseconds have passed since.
pub calls-requests :
    (ip t : ℕ) (n : NetworkInterface) (cs : List Call)
    → IsValid n
    → HasAddresses n
    → AllWellFormed cs
    → HopsFit cs
    → lookup ip n.arp_timer ≡ some t
    → t + elapsed cs < arp_req_time
    → (n' : NetworkInterface) × (calls n cs ≡ some n')
      × (requests ip n'.frames_out ≡ requests ip n.frames_out)
calls-requests ip t n cs v a good fits there soon =
    calls-Silent ip n cs v a good fits (inl (t, there, soon))
