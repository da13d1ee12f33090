-- ===== src/Adapters/Related.antt =====
-- Which segments `unwrap_tcp_in_ip` of libsponge/tcp_helpers/tcp_over_ip.cc lets through.
use csed353_computer_network.Prelude.{
  ℕ, ◌≡◌, refl, Bool, true, false, not, ◌&&◌, Option, none, some, ◌==◌, arith, if_elim, and_parts,
  not-true, Option-cases, ◌⊎◌, inl, inr,
}
use csed353_computer_network.Parser.{is_error}
use csed353_computer_network.Buffers.{Buffer, str, to_buffer}
use csed353_computer_network.Ipv4.{InternetDatagram, proto_tcp, pseudo_cksum}
use csed353_computer_network.TcpSegment.{TcpSegment, empty_segment}
use csed353_computer_network.TcpSegment.Wire
use csed353_computer_network.Adapters.{
  FdAdapterBase, from_peer, targeted, target, unwrap_parsed, unwrap_tcp_in_ip,
}

-- The segment and the datagram belong to the connection of the adapter.
pub record Related (a : FdAdapterBase) (dgram : InternetDatagram) (seg : TcpSegment) : Type 0 where
  pub to_us : dgram.header.dst ≡ a.cfg.source.ip
  pub from_peer : dgram.header.src ≡ a.cfg.destination.ip
  pub our_port : seg.header.dport ≡ a.cfg.source.port
  pub peer_port : seg.header.sport ≡ a.cfg.destination.port
  pub connected : a.listen ≡ false

-- Nothing came out and nothing changed, or the segment in the buffer came out, which is TCP and parses,
-- and the adapter is connected to its sender, as it was or newly by a SYN without a RST.
abbrev pub Came :
    FdAdapterBase → InternetDatagram → Buffer → Option TcpSegment × FdAdapterBase → Type 0
Came a dgram buffer (none, a') = a' ≡ a
Came a dgram buffer (some seg, a') =
    (dgram.header.proto ≡ proto_tcp)
    × (seg ≡ (Wire.parse empty_segment (str buffer) (pseudo_cksum dgram.header)).1)
    × (is_error (Wire.parse empty_segment (str buffer) (pseudo_cksum dgram.header)).0 ≡ false)
    × Related a' dgram seg
    × ((a' ≡ a) ⊎ ((a.listen ≡ true) × (seg.header.syn ≡ true) × (seg.header.rst ≡ false)))

-- There was an exception, since the payload of the datagram is in several buffers, or that came out which
-- the one buffer holds.
abbrev pub Verdict :
    FdAdapterBase → InternetDatagram → Option (Option TcpSegment × FdAdapterBase) → Type 0
Verdict a dgram none = to_buffer dgram.payload ≡ none
Verdict a dgram (some (none, a')) = a' ≡ a
Verdict a dgram (some (some seg, a')) =
    (buffer : Buffer) × (to_buffer dgram.payload ≡ some buffer) × Came a dgram buffer (some seg, a')

not_eq : (a b : ℕ) → not (a == b) ≡ false → a ≡ b
not_eq a b h = ground arith

-- What is left once the tests before `target` are passed.
from_peer_lem :
    (a : FdAdapterBase) (dgram : InternetDatagram) (buffer : Buffer)
    → let parsed = Wire.parse empty_segment (str buffer) (pseudo_cksum dgram.header) in
      dgram.header.dst ≡ a.cfg.source.ip
      → dgram.header.src ≡ a.cfg.destination.ip
      → dgram.header.proto ≡ proto_tcp
      → is_error parsed.0 ≡ false
      → parsed.1.header.dport ≡ a.cfg.source.port
      → a.listen ≡ false
      → Came a dgram buffer (from_peer a parsed.1)
unfolding from_peer
from_peer_lem a dgram buffer dst src proto fine dport connected =
    let seg = (Wire.parse empty_segment (str buffer) (pseudo_cksum dgram.header)).1 in
    if_elim (Came a dgram buffer) (not (seg.header.sport == a.cfg.destination.port)) (none, a)
      (some seg, a) (λ _. refl)
      (λ e. (
        proto,
        refl,
        fine,
        record {
          to_us = dst;
          from_peer = src;
          our_port = dport;
          peer_port = not_eq seg.header.sport a.cfg.destination.port e;
          connected = connected;
        },
        inl refl,
      ))

listening_lem :
    (a : FdAdapterBase) (dgram : InternetDatagram) (buffer : Buffer)
    → let parsed = Wire.parse empty_segment (str buffer) (pseudo_cksum dgram.header) in
      dgram.header.proto ≡ proto_tcp
      → is_error parsed.0 ≡ false
      → parsed.1.header.dport ≡ a.cfg.source.port
      → a.listen ≡ true
      → parsed.1.header.syn ≡ true
      → not parsed.1.header.rst ≡ true
      → Came a dgram buffer (from_peer (targeted a dgram parsed.1) parsed.1)
unfolding from_peer
listening_lem a dgram buffer proto fine dport listening syn rst =
    let seg = (Wire.parse empty_segment (str buffer) (pseudo_cksum dgram.header)).1 in
    let e : (seg.header.sport == seg.header.sport) ≡ true = ground arith in
    rw e (
      proto,
      refl,
      fine,
      record {
        to_us = refl;
        from_peer = refl;
        our_port = dport;
        peer_port = refl;
        connected = refl;
      },
      inr (listening, syn, not-true seg.header.rst rst),
    )

connected_test : (listen b : Bool) → listen ≡ false → (not listen && b) ≡ false → b ≡ false
connected_test true b e h = absurd (ground arith)
connected_test false b e h = h

target_lem :
    (a : FdAdapterBase) (dgram : InternetDatagram) (buffer : Buffer)
    → let parsed = Wire.parse empty_segment (str buffer) (pseudo_cksum dgram.header) in
      (not a.listen && not (dgram.header.dst == a.cfg.source.ip)) ≡ false
      → (not a.listen && not (dgram.header.src == a.cfg.destination.ip)) ≡ false
      → dgram.header.proto ≡ proto_tcp
      → is_error parsed.0 ≡ false
      → parsed.1.header.dport ≡ a.cfg.source.port
      → Came a dgram buffer (target a dgram parsed.1)
unfolding target
target_lem a dgram buffer dst src proto fine dport =
    let seg = (Wire.parse empty_segment (str buffer) (pseudo_cksum dgram.header)).1 in
    if_elim (Came a dgram buffer) a.listen _ (from_peer a seg)
      (λ listening.
        if_elim (Came a dgram buffer) (seg.header.syn && not seg.header.rst)
          (from_peer (targeted a dgram seg) seg) (none, a)
          (λ both.
            let parts = and_parts seg.header.syn (not seg.header.rst) both in
            listening_lem a dgram buffer proto fine dport listening parts.0 parts.1)
          (λ _. refl))
      (λ connected.
        from_peer_lem a dgram buffer
          (not_eq dgram.header.dst a.cfg.source.ip (connected_test a.listen _ connected dst))
          (not_eq dgram.header.src a.cfg.destination.ip (connected_test a.listen _ connected src))
          proto fine dport connected)

parsed_lem :
    (a : FdAdapterBase) (dgram : InternetDatagram) (buffer : Buffer)
    → let parsed = Wire.parse empty_segment (str buffer) (pseudo_cksum dgram.header) in
      (not a.listen && not (dgram.header.dst == a.cfg.source.ip)) ≡ false
      → (not a.listen && not (dgram.header.src == a.cfg.destination.ip)) ≡ false
      → dgram.header.proto ≡ proto_tcp
      → Came a dgram buffer (unwrap_parsed a dgram parsed)
parsed_lem a dgram buffer dst src proto =
    let parsed = Wire.parse empty_segment (str buffer) (pseudo_cksum dgram.header) in
    let P = Came a dgram buffer in
    if_elim P (is_error parsed.0) (none, a) _ (λ _. refl)
      (λ fine.
        if_elim P (not (parsed.1.header.dport == a.cfg.source.port)) (none, a)
          (target a dgram parsed.1) (λ _. refl)
          (λ dport.
            target_lem a dgram buffer dst src proto fine
              (not_eq parsed.1.header.dport a.cfg.source.port dport)))

Verdict-Came :
    (a : FdAdapterBase) (dgram : InternetDatagram) (buffer : Buffer)
    (came : Option TcpSegment × FdAdapterBase)
    → to_buffer dgram.payload ≡ some buffer
    → Came a dgram buffer came
    → Verdict a dgram (some came)
Verdict-Came a dgram buffer (none, a') whole c = c
Verdict-Came a dgram buffer (some seg, a') whole c = (buffer, whole, c)

-- Whatever datagram is unwrapped: either it throws, and the payload of the datagram is in several buffers,
-- or nothing comes out and the adapter is left as it was, or the TCP segment that the payload of the
-- datagram, in one buffer, carries comes out, without an error, the adapter is connected, the addresses
-- and ports of the datagram and the segment are those of its connection, and it is left as it was, or it
-- was listening and the segment is a SYN without a RST.
pub unwrap-Related :
    (a : FdAdapterBase) (dgram : InternetDatagram) → Verdict a dgram (unwrap_tcp_in_ip a dgram)
unfolding unwrap_tcp_in_ip
unwrap-Related a dgram =
    let P = Verdict a dgram in
    if_elim P (not a.listen && not (dgram.header.dst == a.cfg.source.ip)) (some (none, a)) _
      (λ _. refl)
      (λ dst.
        if_elim P (not a.listen && not (dgram.header.src == a.cfg.destination.ip)) (some (none, a))
          _ (λ _. refl)
          (λ src.
            if_elim P (not (dgram.header.proto == proto_tcp)) (some (none, a)) _ (λ _. refl)
              (λ proto. elim (Option-cases (to_buffer dgram.payload)) [
                | inl several ↦ rw several several
                | inr whole ↦ rw (whole.1) (
                    Verdict-Came a dgram whole.0 _ whole.1 (
                      parsed_lem a dgram whole.0 dst src
                        (not_eq dgram.header.proto proto_tcp proto)))
              ])))
