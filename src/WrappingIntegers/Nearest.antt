-- ===== src/WrappingIntegers/Nearest.antt =====
-- `unwrap` against its documentation: it inverts `wrap`, and gives the candidate nearest to the
-- checkpoint.
use csed353_computer_network.Prelude.{ℕ, ◌+◌, ◌-◌, ◌^◌, ◌≤◌, ◌<◌, ◌≡◌, arith, u32_mod, u64_mod}
use csed353_computer_network.WrappingIntegers.{wrap, abs_seqno, unwrap}

pub wrap-lt : (n isn : ℕ) → wrap n isn < u32_mod
unfolding wrap
wrap-lt n isn = omega arith

pub abs_seqno-lt : (n isn : ℕ) → abs_seqno n isn < u32_mod
unfolding abs_seqno
abs_seqno-lt n isn = ground arith

-- Whatever the 64-bit checkpoint, the absolute number that `unwrap` returns for a 32-bit number
-- wraps back to that number, relative to the same 32-bit initial sequence number.
pub wrap-unwrap :
    (n isn checkpoint : ℕ)
    → n < u32_mod
    → isn < u32_mod
    → checkpoint < u64_mod
    → wrap (unwrap n isn checkpoint) isn ≡ n
unfolding wrap unwrap
wrap-unwrap n isn checkpoint hn hi hc = ground arith

-- The distance between two absolute numbers.
abbrev pub dist : ℕ → ℕ → ℕ
dist a b = (a - b) + (b - a)

-- Of all the absolute numbers that wrap to `n`, none is nearer to the checkpoint than the one that
-- `unwrap` returns, for a checkpoint that is 2 ^ 31 or more below 2 ^ 64.
pub unwrap_nearest :
    (n isn checkpoint m : ℕ)
    → n < u32_mod
    → isn < u32_mod
    → checkpoint + 2 ^ 31 < u64_mod
    → wrap m isn ≡ n
    → dist (unwrap n isn checkpoint) checkpoint ≤ dist m checkpoint
unfolding wrap unwrap
unwrap_nearest n isn checkpoint m hn hi hc e = ground arith

-- An absolute number less than 2 ^ 31 away from the checkpoint survives being wrapped and
-- unwrapped.
pub unwrap-wrap :
    (x isn checkpoint : ℕ)
    → isn < u32_mod
    → dist x checkpoint < 2 ^ 31
    → checkpoint + 2 ^ 31 < u64_mod
    → unwrap (wrap x isn) isn checkpoint ≡ x
unfolding wrap unwrap
unwrap-wrap x isn checkpoint hi hd hc = ground arith
