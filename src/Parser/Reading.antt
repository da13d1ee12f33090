-- ===== src/Parser/Reading.antt =====
-- A field that libsponge/util/parser.cc has written is read back, whatever bytes follow.
use csed353_computer_network.Prelude.{
  ℕ, zero, suc, ◌/◌, ◌%◌, ◌^◌, ◌<◌, ◌≤◌, ◌≡◌, refl, ap, ◌∙◌, List, [], ◌∷◌, ◌++◌, arith, length,
  drop, replicate, append_assoc,
}
use csed353_computer_network.Parser.{
  new, parse_u8, parse_u16, parse_u32, unparse_int, unparse_u8, unparse_u16, unparse_u32,
  remove_prefix,
}
use csed353_computer_network.Parser.Roundtrip.{parse-unparse}

pub read_u8 :
    (val : ℕ) (rest : List ℕ)
    → val < 2 ^ 8
    → parse_u8 (new ((val / 1 % 256) ∷ rest)) ≡ (val, new rest)
unfolding unparse_int
read_u8 val rest h =
    (parse-unparse val rest).0
    ∙ (let e : val % 2 ^ 8 ≡ val = omega arith in ap (λ (n : ℕ). (n, new rest)) e)

pub read_u16 :
    (val : ℕ) (rest : List ℕ)
    → val < 2 ^ 16
    → parse_u16 (new ((val / 256 % 256) ∷ (val / 1 % 256) ∷ rest)) ≡ (val, new rest)
unfolding unparse_int
read_u16 val rest h =
    (parse-unparse val rest).1
    ∙ (let e : val % 2 ^ 16 ≡ val = omega arith in ap (λ (n : ℕ). (n, new rest)) e)

pub read_u32 :
    (val : ℕ) (rest : List ℕ)
    → val < 2 ^ 32
    → parse_u32 (
        new (
          (val / 16777216 % 256)
          ∷ (val / 65536 % 256)
          ∷ (val / 256 % 256)
          ∷ (val / 1 % 256)
          ∷ rest))
      ≡ (val, new rest)
unfolding unparse_int
read_u32 val rest h =
    (parse-unparse val rest).2
    ∙ (let e : val % 2 ^ 32 ≡ val = omega arith in ap (λ (n : ℕ). (n, new rest)) e)

drop-zeros : (n : ℕ) (rest : List ℕ) → drop n (replicate n 0 ++ rest) ≡ rest
drop-zeros zero rest = refl
drop-zeros (suc n) rest = drop-zeros n rest

length-zeros : (n : ℕ) (rest : List ℕ) → n ≤ length (replicate n 0 ++ rest)
length-zeros zero rest = omega arith
length-zeros (suc n) rest = omega (arith, length-zeros n rest)

-- Padding is removed.
pub remove_prefix-zeros :
    (n : ℕ) (rest : List ℕ) → remove_prefix (new (replicate n 0 ++ rest)) n ≡ new rest
unfolding remove_prefix
remove_prefix-zeros n rest = ground (arith, length-zeros n rest, drop-zeros n rest)

-- What is written comes after what was there.
pub unparse_u8_lem : (s : List ℕ) (val : ℕ) → unparse_u8 s val ≡ s ++ ((val / 1 % 256) ∷ [])
unfolding unparse_int
unparse_u8_lem s val = refl

pub unparse_u16_lem :
    (s : List ℕ) (val : ℕ) → unparse_u16 s val ≡ s ++ ((val / 256 % 256) ∷ (val / 1 % 256) ∷ [])
unfolding unparse_int
unparse_u16_lem s val = append_assoc s _ _

append_four :
    (s : List ℕ) (a b c d : ℕ)
    → (((s ++ (a ∷ [])) ++ (b ∷ [])) ++ (c ∷ [])) ++ (d ∷ []) ≡ s ++ (a ∷ b ∷ c ∷ d ∷ [])
append_four [] a b c d = refl
append_four (x ∷ s) a b c d = ap (λ t. x ∷ t) (append_four s a b c d)

pub unparse_u32_lem :
    (s : List ℕ) (val : ℕ)
    → unparse_u32 s val
      ≡ s
        ++ ((val / 16777216 % 256) ∷ (val / 65536 % 256) ∷ (val / 256 % 256) ∷ (val / 1 % 256) ∷ [])
unfolding unparse_int
unparse_u32_lem s val = append_four s _ _ _ _
