-- ===== src/Parser.antt =====
-- libsponge/util/parser.hh and parser.cc: integers in network byte order, read from a buffer and
-- written to a string. A buffer is the list of its bytes.
pub mod Roundtrip
pub mod Reading
pub mod Bits
mod Tests
use csed353_computer_network.Prelude.{
  ℕ, zero, suc, ◌+◌, ◌-◌, ◌*◌, ◌/◌, ◌%◌, ◌^◌, Bool, true, false, List, [], ◌∷◌, ◌++◌, ltb,
  if◌then◌else◌, length, drop, get_or,
}

pub data ParseResult : Type 0 where
  no_error : ParseResult
  bad_checksum : ParseResult
  packet_too_short : ParseResult
  wrong_ip_version : ParseResult
  header_too_short : ParseResult
  truncated_packet : ParseResult
  unsupported : ParseResult

pub record NetParser : Type 0 where
  pub buffer : List ℕ
  pub result : ParseResult

abbrev pub new : List ℕ → NetParser
new buffer = record { buffer = buffer; result = no_error }

abbrev pub set_error : NetParser → ParseResult → NetParser
set_error p res = record p { result = res }

abbrev pub is_error : ParseResult → Bool
is_error no_error = false
is_error bad_checksum = true
is_error packet_too_short = true
is_error wrong_ip_version = true
is_error header_too_short = true
is_error truncated_packet = true
is_error unsupported = true

abbrev pub error : NetParser → Bool
error p = is_error p.result

abbrev pub check_size : NetParser → ℕ → NetParser
check_size p size = if ltb (length p.buffer) size then set_error p packet_too_short else p

abbrev pub width : ℕ → ℕ
width len = 2 ^ (8 * len)

-- The loop of `_parse_int`, with the rounds left, for an integer of `len` bytes.
abbrev pub parse_bytes : ℕ → List ℕ → ℕ → ℕ → ℕ → ℕ
parse_bytes len buffer zero i ret = ret
parse_bytes len buffer (suc rounds) i ret =
    parse_bytes len buffer rounds (i + 1) ((ret * 256 % width len + get_or buffer i 0) % width len)

unfoldable pub parse_int : ℕ → NetParser → ℕ × NetParser
parse_int len p =
    let checked = check_size p len in
    if error checked then (0, checked) else (
      parse_bytes len checked.buffer len 0 0,
      record checked { buffer = drop len checked.buffer },
    )

unfoldable pub remove_prefix : NetParser → ℕ → NetParser
remove_prefix p n =
    let checked = check_size p n in
    if error checked then checked else record checked { buffer = drop n checked.buffer }

-- The loop of `_unparse_int`, with the rounds left.
abbrev pub unparse_bytes : ℕ → ℕ → ℕ → List ℕ → ℕ → List ℕ
unparse_bytes len zero i s val = s
unparse_bytes len (suc rounds) i s val =
    unparse_bytes len rounds (i + 1) (s ++ (val / 2 ^ ((len - i - 1) * 8) % 256 ∷ [])) val

unfoldable pub unparse_int : ℕ → List ℕ → ℕ → List ℕ
unparse_int len s val = unparse_bytes len len 0 s val

abbrev pub parse_u32 : NetParser → ℕ × NetParser
parse_u32 p = parse_int 4 p

abbrev pub parse_u16 : NetParser → ℕ × NetParser
parse_u16 p = parse_int 2 p

abbrev pub parse_u8 : NetParser → ℕ × NetParser
parse_u8 p = parse_int 1 p

abbrev pub unparse_u32 : List ℕ → ℕ → List ℕ
unparse_u32 s val = unparse_int 4 s val

abbrev pub unparse_u16 : List ℕ → ℕ → List ℕ
unparse_u16 s val = unparse_int 2 s val

abbrev pub unparse_u8 : List ℕ → ℕ → List ℕ
unparse_u8 s val = unparse_int 1 s val
