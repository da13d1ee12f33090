-- ===== src/Checksum/Tests.antt =====
-- A checksum over six bytes, with its field in the middle.
use csed353_computer_network.Prelude.{◌≡◌, ◌≢◌, refl, [], ◌∷◌, ◌++◌, arith}
use csed353_computer_network.Checksum.{new, add, value}
use csed353_computer_network.Checksum.Sum.{complement, value-complement}
use csed353_computer_network.Checksum.Verify.{value-detects}

value-run : value (add (new 0) (0x45 ∷ 0x11 ∷ 0 ∷ 0 ∷ 0xff ∷ 0xff ∷ [])) ≡ 0xbaee
unfolding value add
value-run = refl

value-complement_example : value (new 131070) ≡ complement 131070
value-complement_example = value-complement (new 131070) (omega arith)

value-detects_example : value (add (new 0) ((1 ∷ []) ++ (3 ∷ 0xfe ∷ 0xfd ∷ []))) ≢ 0
unfolding value add
value-detects_example =
    value-detects 0 2 3 (1 ∷ []) (0xfe ∷ 0xfd ∷ []) (omega arith) (omega arith)
      (λ e. omega (arith, e)) (omega arith) (omega arith) refl
