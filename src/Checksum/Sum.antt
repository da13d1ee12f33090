-- ===== src/Checksum/Sum.antt =====
-- What `InternetChecksum` adds up: the 16-bit words of the data, and its value is the complement of
-- their sum modulo 65535.
use csed353_computer_network.Prelude.{
  ℕ, zero, suc, ◌+◌, ◌-◌, ◌*◌, ◌%◌, ◌<◌, ◌≤◌, ◌≡◌, refl, Bool, true, false, not, List, [], ◌∷◌,
  ◌++◌, if◌then◌else◌, ◌==◌, u32_mod, length, arith, replicate,
}
use csed353_computer_network.Checksum.{InternetChecksum, add, add_byte, fold, value}

abbrev pub AllBytes : List ℕ → Type 0
AllBytes [] = Unit
AllBytes (byte ∷ rest) = (byte < 256) × AllBytes rest

-- The sum of the words of the data, where the flag says that the first byte is the low one of its
-- word.
abbrev pub words : Bool → List ℕ → ℕ
words parity [] = 0
words parity (byte ∷ rest) = (if not parity then byte * 256 else byte) + words (not parity) rest

-- Data added in pieces counts as data added at once.
pub add-append : (c : InternetChecksum) (xs ys : List ℕ) → add c (xs ++ ys) ≡ add (add c xs) ys
unfolding add
add-append c [] ys = refl
add-append c (x ∷ xs) ys = add-append (add_byte c x) xs ys

pub add-words :
    (c : InternetChecksum) (xs : List ℕ)
    → c.sum < u32_mod
    → (add c xs).sum ≡ (c.sum + words c.parity xs) % u32_mod
unfolding add
add-words c [] h = omega arith
add-words c (x ∷ xs) h = omega (arith, add-words (add_byte c x) xs (omega arith))

-- The flag after the data.
abbrev pub parity_after : Bool → List ℕ → Bool
parity_after parity [] = parity
parity_after parity (byte ∷ rest) = parity_after (not parity) rest

pub words-append :
    (p : Bool) (xs ys : List ℕ) → words p (xs ++ ys) ≡ words p xs + words (parity_after p xs) ys
words-append p [] ys = omega arith
words-append p (x ∷ xs) ys = omega (arith, words-append (not p) xs ys)

not_twice : (p : Bool) → not (not p) ≡ p
not_twice true = refl
not_twice false = refl

-- Padding with an even number of zeros adds nothing.
pub words-zeros :
    (n : ℕ) (p : Bool) (xs : List ℕ) → words p (replicate (n + n) 0 ++ xs) ≡ words p xs
words-zeros zero p xs = refl
words-zeros (suc n) p xs =
    let e : suc n + suc n ≡ suc (suc (n + n)) = omega arith in
    rw (e, not_twice) (ground (arith, words-zeros n p xs))

pub words-le : (p : Bool) (xs : List ℕ) → AllBytes xs → words p xs ≤ 65280 * length xs
words-le p [] h = omega arith
words-le p (x ∷ xs) h = ground (arith, words-le (not p) xs h.1)

-- The value of a sum, written without a loop.
abbrev pub complement : ℕ → ℕ
complement sum = if sum == 0 then 65535 else 65534 - (sum - 1) % 65535

-- The loop that folds the carries back in computes the complement of the sum modulo 65535, and 0 and
-- 65535 are told apart by whether anything was added.
pub value-complement : (c : InternetChecksum) → c.sum < u32_mod → value c ≡ complement c.sum
unfolding value fold
value-complement c h = ground arith
