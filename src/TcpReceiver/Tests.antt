-- ===== src/TcpReceiver/Tests.antt =====
-- A receiver whose peer starts at 1000 and sends the stream whose byte k is 10 + k.
use csed353_computer_network.Prelude.{
  ℕ, zero, suc, ◌+◌, ◌≡◌, refl, true, none, some, [], ◌∷◌, arith,
}
use csed353_computer_network.WrappingIntegers.{wrap, unwrap}
use csed353_computer_network.ByteStream
use csed353_computer_network.StreamReassembler
use csed353_computer_network.StreamReassembler.{push_substring}
use csed353_computer_network.StreamReassembler.Store.{Excerpt}
use csed353_computer_network.StreamReassembler.Run.{new-InStep}
use csed353_computer_network.TcpSegment.{TcpSegment, default_header}
use csed353_computer_network.TcpReceiver.{
  TcpReceiver, new, segment_received, push_segment, ackno, window_size,
}
use csed353_computer_network.TcpReceiver.Tracks.{Tracks, Carries, segment_received-Tracks}

abbrev tens : ℕ → ℕ
tens k = 10 + k

abbrev syn_segment : TcpSegment
syn_segment = record { header = record default_header { syn = true; seqno = 1000 }; payload = [] }

abbrev data_segment : TcpSegment
data_segment = record { header = record default_header { seqno = 1002 }; payload = 11 ∷ 12 ∷ [] }

abbrev fresh : TcpReceiver
fresh = new 4

abbrev connected : TcpReceiver
connected = record { reassembler = StreamReassembler.new 4; capacity = 4; isn = some 1000 }

acknos_run :
    (ackno fresh ≡ none)
    × (ackno (segment_received fresh syn_segment) ≡ some 1001)
    × (ackno (segment_received connected data_segment) ≡ some 1001)
    × (window_size (segment_received connected data_segment) ≡ 4)
unfolding ackno new segment_received push_segment StreamReassembler.new push_substring
    ByteStream.new ByteStream.write wrap unwrap
acknos_run = (refl, refl, refl, refl)

data-Excerpt : Excerpt tens (11 ∷ 12 ∷ []) 1
data-Excerpt zero h = refl
data-Excerpt (suc zero) h = refl
data-Excerpt (suc (suc k)) h = absurd (omega arith)

connected-Tracks : Tracks tens 1000 connected
connected-Tracks = record {
  known = refl;
  range = omega arith;
  in_step = new-InStep tens 4 (omega arith) (omega arith);
}

data-Carries : Carries tens 1000 connected data_segment 1
unfolding StreamReassembler.new ByteStream.new wrap
data-Carries = record {
  numbered = refl;
  near = omega arith;
  admissible = omega arith;
  excerpt = data-Excerpt;
}

segment_received-Tracks_example : Tracks tens 1000 (segment_received connected data_segment)
segment_received-Tracks_example =
    segment_received-Tracks tens 1000 connected data_segment 1 connected-Tracks data-Carries
