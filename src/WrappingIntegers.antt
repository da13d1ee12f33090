-- ===== src/WrappingIntegers.antt =====
-- libsponge/wrapping_integers.hh and wrapping_integers.cc: 32-bit sequence numbers relative to an
-- initial sequence number, and their conversion from and to 64-bit absolute ones. A `WrappingInt32`
-- is its raw value, a number below 2 ^ 32.
pub mod Nearest
mod Tests
use csed353_computer_network.Prelude.{
  ℕ, ◌+◌, ◌-◌, ◌*◌, ◌/◌, ◌%◌, ◌^◌, Bool, not, ltb, leb, ◌==◌, if◌then◌else◌, u32_mod, u64_mod,
  add32, sub32, add64, sub64,
}

abbrev pub WrappingInt32 : Type 0
WrappingInt32 = ℕ

-- `a - b` on two wrapping integers; the `int32_t` is given by its bit pattern.
abbrev pub offset : WrappingInt32 → WrappingInt32 → ℕ
offset a b = sub32 a b

-- `a + b` for a `uint32_t` b.
abbrev pub advance : WrappingInt32 → ℕ → WrappingInt32
advance a b = add32 a b

-- `a - b` for a `uint32_t` b, which is `a + -b`.
abbrev pub retreat : WrappingInt32 → ℕ → WrappingInt32
retreat a b = advance a (sub32 0 b)

unfoldable pub wrap : ℕ → WrappingInt32 → WrappingInt32
wrap n isn = let abs_seqno32 = n % u32_mod in advance isn abs_seqno32

-- `abs_seqno` of `unwrap`. The result is converted to a `uint32_t`.
unfoldable pub abs_seqno : WrappingInt32 → WrappingInt32 → ℕ
abs_seqno n isn = if leb isn n then offset n isn else (u32_mod - isn + n) % u32_mod

-- The part of `unwrap` after its early return.
unfoldable pub nearby_abs_seqno : ℕ → ℕ → ℕ
nearby_abs_seqno seqno checkpoint =
    let checkpoint_high_32bit = checkpoint / u32_mod * u32_mod in
    let checkpoint_low_32bit = checkpoint % u32_mod in
    if ltb seqno checkpoint_low_32bit
    then (if leb (2 ^ 31) (checkpoint_low_32bit - seqno)
        then add64 (add64 checkpoint_high_32bit seqno) u32_mod
        else add64 checkpoint_high_32bit seqno)
    else (if leb (2 ^ 31) (seqno - checkpoint_low_32bit)
        then sub64 (add64 checkpoint_high_32bit seqno) u32_mod
        else add64 checkpoint_high_32bit seqno)

unfoldable pub unwrap : WrappingInt32 → WrappingInt32 → ℕ → ℕ
unfolding abs_seqno nearby_abs_seqno
unwrap n isn checkpoint =
    let seqno = abs_seqno n isn in
    if leb checkpoint seqno then seqno else nearby_abs_seqno seqno checkpoint
