-- ===== src/Checksum.antt =====
-- `InternetChecksum` of libsponge/util/util.hh and util.cc. Data is the list of its bytes.
pub mod Sum
pub mod Verify
mod Tests
use csed353_computer_network.Prelude.{
  ℕ, zero, suc, ◌+◌, ◌-◌, ◌*◌, ◌/◌, ◌%◌, ◌^◌, Bool, true, false, not, List, [], ◌∷◌, ltb,
  if◌then◌else◌, add32, u16_mod,
}

pub record InternetChecksum : Type 0 where
  pub sum : ℕ
  pub parity : Bool

abbrev pub new : ℕ → InternetChecksum
new initial_sum = record { sum = initial_sum; parity = false }

-- One round of the loop of `add`.
abbrev pub add_byte : InternetChecksum → ℕ → InternetChecksum
add_byte c byte = record {
  sum = add32 c.sum (if not c.parity then byte * 256 else byte);
  parity = not c.parity;
}

unfoldable pub add : InternetChecksum → List ℕ → InternetChecksum
add c [] = c
add c (byte ∷ rest) = add (add_byte c byte) rest

-- The loop of `value`; three rounds are enough for a `uint32_t`.
unfoldable pub fold : ℕ → ℕ → ℕ
fold zero ret = ret
fold (suc fuel) ret = elim (ltb 65535 ret) [
  | true ↦ fold fuel (ret / u16_mod + ret % u16_mod)
  | false ↦ ret
]

-- `~ret` as a `uint16_t`.
unfoldable pub value : InternetChecksum → ℕ
unfolding fold
value c = 65535 - fold 3 c.sum
