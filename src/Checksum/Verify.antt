-- ===== src/Checksum/Verify.antt =====
-- A checksum computed by `InternetChecksum` and put into the data makes the check succeed, and the
-- check notices a byte that was changed.
use csed353_computer_network.Prelude.{
  ℕ, ◌+◌, ◌*◌, ◌/◌, ◌%◌, ◌<◌, ◌≤◌, ◌≡◌, ◌≢◌, sym, ap, ◌∙◌, false, List, ◌∷◌, ◌++◌, u32_mod, arith,
}
use csed353_computer_network.Checksum.{new, add, value}
use csed353_computer_network.Checksum.Sum.{
  words, parity_after, words-append, add-words, complement, value-complement,
}

-- The value after data that does not overflow the sum.
pub value-add :
    (initial : ℕ) (xs : List ℕ)
    → initial + words false xs < u32_mod
    → value (add (new initial) xs) ≡ complement (initial + words false xs)
value-add initial xs h =
    let e : (add (new initial) xs).sum ≡ initial + words false xs =
      omega (arith, add-words (new initial) xs (omega arith)) in
    value-complement (add (new initial) xs) (omega arith) ∙ ap complement e

words-field :
    (pre post : List ℕ) (hi lo : ℕ)
    → parity_after false pre ≡ false
    → words false (pre ++ (hi ∷ lo ∷ post)) ≡ words false pre + words false post + hi * 256 + lo
words-field pre post hi lo even = words-append false pre (hi ∷ lo ∷ post) ∙ rw even (omega arith)

complement_self : (sum : ℕ) → complement (sum + complement sum) ≡ 0
complement_self sum = ground arith

complement-le : (sum : ℕ) → complement sum ≤ 65535
complement-le sum = ground arith

complement-zero : (sum : ℕ) → complement sum ≡ 0 → (0 < sum) × (sum % 65535 ≡ 0)
complement-zero sum h = ground arith

-- If the checksum of data in which an aligned field of two bytes is 0 is put into that field, then the
-- checksum of the result is 0, as long as the sum stays below 2 ^ 32.
pub value-verifies :
    (initial : ℕ) (pre post : List ℕ)
    → parity_after false pre ≡ false
    → initial + words false (pre ++ (0 ∷ 0 ∷ post)) + 65535 < u32_mod
    → let c = value (add (new initial) (pre ++ (0 ∷ 0 ∷ post))) in
      value (add (new initial) (pre ++ ((c / 256) ∷ (c % 256) ∷ post))) ≡ 0
value-verifies initial pre post even small =
    let sum = initial + words false (pre ++ (0 ∷ 0 ∷ post)) in
    let c = value (add (new initial) (pre ++ (0 ∷ 0 ∷ post))) in
    let e : c ≡ complement sum = value-add initial (pre ++ (0 ∷ 0 ∷ post)) (omega arith) in
    let total : initial + words false (pre ++ ((c / 256) ∷ (c % 256) ∷ post))
        ≡ sum + complement sum =
      omega
        (arith, e, words-field pre post 0 0 even, words-field pre post (c / 256) (c % 256) even) in
    value-add initial (pre ++ ((c / 256) ∷ (c % 256) ∷ post))
      (omega (arith, total, complement-le sum))
    ∙ ap complement total
    ∙ complement_self sum

-- A checksum of 0 is no longer 0 once one byte of the data is changed, as long as both sums stay below
-- 2 ^ 32.
pub value-detects :
    (initial b b' : ℕ) (pre post : List ℕ)
    → b < 256
    → b' < 256
    → b ≢ b'
    → initial + words false (pre ++ (b ∷ post)) < u32_mod
    → initial + words false (pre ++ (b' ∷ post)) < u32_mod
    → value (add (new initial) (pre ++ (b ∷ post))) ≡ 0
    → value (add (new initial) (pre ++ (b' ∷ post))) ≢ 0
value-detects initial b b' pre post hb hb' ne small small' accepted = λ accepted'.
    let p = parity_after false pre in
    let z =
      complement-zero (initial + words false (pre ++ (b ∷ post)))
        (sym (value-add initial (pre ++ (b ∷ post)) small) ∙ accepted) in
    let z' =
      complement-zero (initial + words false (pre ++ (b' ∷ post)))
        (sym (value-add initial (pre ++ (b' ∷ post)) small') ∙ accepted') in
    let w = words-append false pre (b ∷ post) in
    let w' = words-append false pre (b' ∷ post) in ne (ground (arith, z, z', w, w'))
