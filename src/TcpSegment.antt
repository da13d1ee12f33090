-- ===== src/TcpSegment.antt =====
-- libsponge/tcp_helpers/tcp_header.hh and tcp_segment.hh: the data of a TCP segment. A payload is
-- the list of its bytes.
pub mod Wire
pub mod Header
pub mod Roundtrip
pub mod Lax
mod Tests
use csed353_computer_network.Prelude.{ℕ, ◌+◌, Bool, false, List, [], length, if◌then◌else◌}
use csed353_computer_network.WrappingIntegers.{WrappingInt32}

pub record TcpHeader : Type 0 where
  pub sport : ℕ
  pub dport : ℕ
  pub seqno : WrappingInt32
  pub ackno : WrappingInt32
  pub doff : ℕ
  pub urg : Bool
  pub ack : Bool
  pub psh : Bool
  pub rst : Bool
  pub syn : Bool
  pub fin : Bool
  pub win : ℕ
  pub cksum : ℕ
  pub uptr : ℕ

-- The member initialisers of `TCPHeader`.
abbrev pub default_header : TcpHeader
default_header = record {
  sport = 0;
  dport = 0;
  seqno = 0;
  ackno = 0;
  doff = 5;
  urg = false;
  ack = false;
  psh = false;
  rst = false;
  syn = false;
  fin = false;
  win = 0;
  cksum = 0;
  uptr = 0;
}

pub record TcpSegment : Type 0 where
  pub header : TcpHeader
  pub payload : List ℕ

abbrev pub empty_segment : TcpSegment
empty_segment = record { header = default_header; payload = [] }

abbrev pub length_in_sequence_space : TcpSegment → ℕ
length_in_sequence_space seg =
    length seg.payload + (if seg.header.syn then 1 else 0) + (if seg.header.fin then 1 else 0)
