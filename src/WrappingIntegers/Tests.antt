-- ===== src/WrappingIntegers/Tests.antt =====
-- Runs of the conversions, and the theorems at concrete numbers.
use csed353_computer_network.Prelude.{◌+◌, ◌-◌, ◌*◌, ◌^◌, ◌≡◌, ◌≤◌, refl, arith}
use csed353_computer_network.WrappingIntegers.{wrap, unwrap}
use csed353_computer_network.WrappingIntegers.Nearest.{unwrap_nearest, unwrap-wrap, dist}

wrap_runs : wrap (3 * 2 ^ 32 + 17) 15 ≡ 32
unfolding wrap
wrap_runs = refl

-- The early return: a number at or above the checkpoint.
unwrap_low : unwrap 16 16 0 ≡ 0
unfolding unwrap
unwrap_low = refl

-- The number just before the initial one, near 2 * 2 ^ 32.
unwrap_high : unwrap 15 16 (2 * 2 ^ 32) ≡ 2 * 2 ^ 32 + 0xffff_ffff - 2 ^ 32
unfolding unwrap
unwrap_high = refl

unwrap_nearest_example :
    dist (unwrap 15 16 (2 * 2 ^ 32)) (2 * 2 ^ 32) ≤ dist 0xffff_ffff (2 * 2 ^ 32)
unfolding wrap
unwrap_nearest_example =
    unwrap_nearest 15 16 (2 * 2 ^ 32) 0xffff_ffff (omega arith) (omega arith) (omega arith) refl

unwrap-wrap_example : unwrap (wrap (2 ^ 33 + 5) 77) 77 (2 ^ 33 + 1000) ≡ 2 ^ 33 + 5
unwrap-wrap_example =
    unwrap-wrap (2 ^ 33 + 5) 77 (2 ^ 33 + 1000) (omega arith) (omega arith) (omega arith)
