-- ===== src/TcpSegment/Lax.antt =====
-- The parser of libsponge/tcp_helpers/tcp_segment.cc lets a header pass that its own part for the header
-- refuses.
use csed353_computer_network.Prelude.{ℕ, ◌<◌, ◌≡◌, refl, ◌∙◌, List, ◌++◌, arith, ltb, if_elim}
use csed353_computer_network.Parser.{no_error, header_too_short}
use csed353_computer_network.Parser
use csed353_computer_network.Checksum
use csed353_computer_network.TcpSegment.{TcpHeader, TcpSegment}
use csed353_computer_network.TcpSegment.Wire.{skip_options, parse_header, header_fields, parse}
use csed353_computer_network.TcpSegment.Header.{Fits, header_fields-parse}

skip_short :
    (h : TcpHeader) (rest : List ℕ)
    → h.doff < 5
    → skip_options h (Parser.new rest) ≡ (header_too_short, h, Parser.new rest)
unfolding skip_options
skip_short h rest short =
    if_elim (λ o. o ≡ (header_too_short, h, Parser.new rest)) (ltb h.doff 5) _ _ (λ e. refl)
      (λ e. absurd (ground arith))

-- A segment whose data offset is less than 5 and whose checksum is right is parsed without an error,
-- though the parser of its header says that the header is too short.
pub parse-short_header :
    (old : TcpSegment) (h : TcpHeader) (rest : List ℕ) (pseudo : ℕ)
    → Fits h
    → h.doff < 5
    → Checksum.value (Checksum.add (Checksum.new pseudo) (header_fields h ++ rest)) ≡ 0
    → ((parse_header (Parser.new (header_fields h ++ rest))).0 ≡ header_too_short)
      × (parse old (header_fields h ++ rest) pseudo
          ≡ (no_error, record { header = h; payload = rest }))
unfolding parse
parse-short_header old h rest pseudo r short checked =
    let e = header_fields-parse h rest r ∙ skip_short h rest short in rw (checked, e) (refl, refl)
