-- ===== src/Parser/Roundtrip.antt =====
-- What libsponge/util/parser.cc writes it reads back, and what it does with too short a buffer.
use csed353_computer_network.Prelude.{
  ℕ, ◌%◌, ◌^◌, ◌<◌, ◌≤◌, ◌∙◌, ◌≡◌, ap, List, [], ◌++◌, arith, length, drop,
}
use csed353_computer_network.Parser.{
  NetParser, new, parse_int, parse_bytes, parse_u8, parse_u16, parse_u32, unparse_int, unparse_u8,
  unparse_u16, unparse_u32, remove_prefix, packet_too_short,
}

parse_enough :
    (len : ℕ) (buffer : List ℕ)
    → len ≤ length buffer
    → parse_int len (new buffer) ≡ (parse_bytes len buffer len 0 0, new (drop len buffer))
unfolding parse_int
parse_enough len buffer h = ground arith

-- An integer that is written in front of other bytes is read back modulo its width, whatever its
-- width, and the other bytes are left.
pub parse-unparse :
    (val : ℕ) (rest : List ℕ)
    → (parse_u8 (new (unparse_u8 [] val ++ rest)) ≡ (val % 2 ^ 8, new rest))
      × (parse_u16 (new (unparse_u16 [] val ++ rest)) ≡ (val % 2 ^ 16, new rest))
      × (parse_u32 (new (unparse_u32 [] val ++ rest)) ≡ (val % 2 ^ 32, new rest))
unfolding unparse_int
parse-unparse val rest =
    let read : ℕ → ℕ × NetParser = λ n. (n, new rest) in
    (
      parse_enough 1 (unparse_u8 [] val ++ rest) (omega arith)
          ∙ ap read (
              let e : parse_bytes 1 (unparse_u8 [] val ++ rest) 1 0 0 ≡ val % 2 ^ 8 = omega arith in
              e),
      parse_enough 2 (unparse_u16 [] val ++ rest) (omega arith)
          ∙ ap read (
              let e : parse_bytes 2 (unparse_u16 [] val ++ rest) 2 0 0 ≡ val % 2 ^ 16 =
                omega arith in
              e),
      parse_enough 4 (unparse_u32 [] val ++ rest) (omega arith)
          ∙ ap read (
              let e : parse_bytes 4 (unparse_u32 [] val ++ rest) 4 0 0 ≡ val % 2 ^ 32 =
                omega arith in
              e),
    )

-- From a buffer that is too short nothing is read or removed: the result is 0, the buffer stays, and
-- the parser is in error.
pub parse_int-short :
    (len : ℕ) (p : NetParser)
    → length p.buffer < len
    → (parse_int len p ≡ (0, record p { result = packet_too_short }))
      × (remove_prefix p len ≡ record p { result = packet_too_short })
unfolding parse_int remove_prefix
parse_int-short len p h = (ground arith, ground arith)
