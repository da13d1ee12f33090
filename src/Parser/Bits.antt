-- ===== src/Parser/Bits.antt =====
-- The bit operations of the header files of libsponge/tcp_helpers: `x >> k` is `x / 2 ^ k`, `x << k` is
-- `x * 2 ^ k`, `x & (2 ^ k - 1)` is `x % 2 ^ k`, and values that have no bit in common are joined by a
-- sum.
use csed353_computer_network.Prelude.{
  ℕ, ◌-◌, ◌/◌, ◌%◌, ◌^◌, Bool, List, ◌++◌, ◌==◌, if◌then◌else◌, length, take, replicate,
}

-- `x & 2 ^ k`, as a Boolean.
abbrev pub flag : ℕ → ℕ → Bool
flag x k = x / 2 ^ k % 2 == 1

abbrev pub bit : Bool → ℕ → ℕ
bit b k = if b then 2 ^ k else 0

-- `ret.resize(n)` of a string.
abbrev pub resize : ℕ → List ℕ → List ℕ
resize n s = take n s ++ replicate (n - length s) 0
