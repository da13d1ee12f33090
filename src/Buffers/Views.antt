-- ===== src/Buffers/Views.antt =====
-- A `Buffer` is a view of a string, and a `BufferList` one of a longer string: every operation does to
-- the bytes what its name says.
use csed353_computer_network.Prelude.{
  ℕ, zero, suc, ◌+◌, ◌-◌, ◌<◌, ◌≤◌, ◌≡◌, refl, sym, ap, ◌∙◌, Option, none, some, List, [], ◌∷◌,
  ◌++◌, ◌==◌, length, drop, arith, append-nil, append_assoc, length-append, length-drop, drop_all,
  if_elim,
}
use native.Mathlib.Decide.{dec_lt}
use csed353_computer_network.Buffers.{
  Buffer, BufferList, empty_buffer, from_string, list_of, to_buffer, str, str_of, size, release,
  remove_prefix, append, concatenate, concatenate_onto, list_size, size_onto, list_remove_prefix,
}

drop-drop {ℓ} : {A : Type ℓ} (m n : ℕ) (xs : List A) → drop n (drop m xs) ≡ drop (m + n) xs
drop-drop zero n xs = let e : n ≡ 0 + n = omega arith in ap (λ k. drop k xs) e
drop-drop (suc m) zero [] = let e : suc m ≡ suc m + 0 = omega arith in ap (λ k. drop k []) e
drop-drop (suc m) (suc n) [] =
    let e : suc (suc (m + n)) ≡ suc m + suc n = omega arith in ap (λ k. drop k []) e
drop-drop (suc m) n (x ∷ xs) =
    drop-drop m n xs
    ∙ (let e : suc (m + n) ≡ suc m + n = omega arith in ap (λ k. drop k (x ∷ xs)) e)

release-str :
    (o : Option (List ℕ)) (m n : ℕ) → str_of (release o (m + n)) (m + n) ≡ drop n (str_of o m)
release-str none m zero = refl
release-str none m (suc n) = refl
release-str (some s) m n =
    if_elim (λ o. str_of o (m + n) ≡ drop n (drop m s)) (m + n == length s) none (some s)
      (λ e.
        let all : length (drop m s) ≤ n = ground (arith, length-drop m s) in
        sym (drop_all n (drop m s) all))
      (λ e. sym (drop-drop m n s))

-- Removing at most as many bytes as a buffer has leaves a buffer with the rest of its bytes.
pub remove_prefix-str :
    (b : Buffer) (n : ℕ)
    → n ≤ size b
    → (b' : Buffer) × (remove_prefix b n ≡ some b') × (str b' ≡ drop n (str b))
unfolding remove_prefix
remove_prefix-str b n h = (
  record {
    storage = release b.storage (b.starting_offset + n);
    starting_offset = b.starting_offset + n;
  },
  ground arith,
  release-str b.storage b.starting_offset n,
)

-- The bytes of the buffers, one after the other.
abbrev pub bytes : BufferList → List ℕ
bytes [] = []
bytes (b ∷ buffers) = str b ++ bytes buffers

concatenate_onto-bytes :
    (ret : List ℕ) (buffers : BufferList) → concatenate_onto ret buffers ≡ ret ++ bytes buffers
concatenate_onto-bytes ret [] = sym (append-nil ret)
concatenate_onto-bytes ret (b ∷ buffers) =
    concatenate_onto-bytes (ret ++ str b) buffers ∙ append_assoc ret (str b) (bytes buffers)

pub concatenate-bytes : (buffers : BufferList) → concatenate buffers ≡ bytes buffers
unfolding concatenate
concatenate-bytes buffers = concatenate_onto-bytes [] buffers

size_onto-bytes :
    (ret : ℕ) (buffers : BufferList) → size_onto ret buffers ≡ ret + length (bytes buffers)
size_onto-bytes ret [] = omega arith
size_onto-bytes ret (b ∷ buffers) =
    omega (arith, size_onto-bytes (ret + size b) buffers, length-append (str b) (bytes buffers))

bytes-append : (xs ys : BufferList) → bytes (xs ++ ys) ≡ bytes xs ++ bytes ys
bytes-append [] ys = refl
bytes-append (b ∷ xs) ys =
    ap (λ s. str b ++ s) (bytes-append xs ys) ∙ sym (append_assoc (str b) (bytes xs) (bytes ys))

pub append-append : (xs ys : BufferList) → append xs ys ≡ xs ++ ys
append-append xs [] = sym (append-nil xs)
append-append xs (b ∷ ys) = append-append (xs ++ (b ∷ [])) ys ∙ append_assoc xs (b ∷ []) ys

-- The string of two lists appended is that of the one followed by that of the other, and the size of
-- a list is the length of its string.
pub concatenate-append :
    (xs ys : BufferList)
    → (concatenate (append xs ys) ≡ concatenate xs ++ concatenate ys)
      × (list_size (append xs ys) ≡ length (concatenate xs) + length (concatenate ys))
unfolding list_size
concatenate-append xs ys =
    let e : bytes (append xs ys) ≡ bytes xs ++ bytes ys =
      ap bytes (append-append xs ys) ∙ bytes-append xs ys in
    rw (concatenate-bytes (append xs ys), concatenate-bytes xs, concatenate-bytes ys)
      (
        e,
        size_onto-bytes 0 (append xs ys)
            ∙ (let n : 0 + length (bytes (append xs ys)) ≡ length (bytes xs) + length (bytes ys) =
                  omega (arith, ap length e, length-append (bytes xs) (bytes ys)) in
                n),
      )

-- The same bytes in one buffer.
abbrev pub contiguous : BufferList → BufferList
contiguous buffers = list_of (from_string (concatenate buffers))

pub concatenate-cons :
    (b : Buffer) (buffers : BufferList) → concatenate (b ∷ buffers) ≡ str b ++ concatenate buffers
concatenate-cons b buffers =
    concatenate-bytes (b ∷ buffers) ∙ ap (λ s. str b ++ s) (sym (concatenate-bytes buffers))

pub list_size-concatenate :
    (buffers : BufferList) → list_size buffers ≡ length (concatenate buffers)
unfolding list_size
list_size-concatenate buffers =
    let e : 0 + length (bytes buffers) ≡ length (bytes buffers) = omega arith in
    size_onto-bytes 0 buffers ∙ e ∙ ap length (sym (concatenate-bytes buffers))

-- A list of at most one buffer is that buffer, or an empty one.
pub to_buffer-short :
    (buffers : BufferList)
    → length buffers ≤ 1
    → (buffer : Buffer) × (to_buffer buffers ≡ some buffer)
unfolding to_buffer
to_buffer-short [] short = (empty_buffer, refl)
to_buffer-short (b ∷ []) short = (b, refl)
to_buffer-short (b ∷ b' ∷ buffers) short = absurd (omega arith)

-- Several buffers are no one buffer.
pub to_buffer-several : (buffers : BufferList) → 1 < length buffers → to_buffer buffers ≡ none
unfolding to_buffer
to_buffer-several [] several = absurd (omega arith)
to_buffer-several (b ∷ []) several = absurd (omega arith)
to_buffer-several (b ∷ b' ∷ buffers) several = refl

drop-append_le {ℓ} :
    {A : Type ℓ} (n : ℕ) (xs ys : List A) → n ≤ length xs → drop n xs ++ ys ≡ drop n (xs ++ ys)
drop-append_le zero xs ys h = refl
drop-append_le (suc n) [] ys h = absurd (omega arith)
drop-append_le (suc n) (x ∷ xs) ys h = drop-append_le n xs ys (omega arith)

drop-append_ge {ℓ} :
    {A : Type ℓ} (n : ℕ) (xs ys : List A)
    → length xs ≤ n
    → drop (n - length xs) ys ≡ drop n (xs ++ ys)
drop-append_ge n [] ys h = let e : n - 0 ≡ n = omega arith in ap (λ k. drop k ys) e
drop-append_ge zero (x ∷ xs) ys h = absurd (omega arith)
drop-append_ge (suc n) (x ∷ xs) ys h =
    (let e : suc n - suc (length xs) ≡ n - length xs = omega arith in ap (λ k. drop k ys) e)
    ∙ drop-append_ge n xs ys (omega arith)

list_remove_prefix-bytes :
    (buffers : BufferList) (n : ℕ)
    → n ≤ length (bytes buffers)
    → (rest : BufferList) × (list_remove_prefix buffers n ≡ some rest)
      × (bytes rest ≡ drop n (bytes buffers))
unfolding list_remove_prefix
list_remove_prefix-bytes [] n h = ([], ground arith, sym (drop_all n [] (omega arith)))
list_remove_prefix-bytes (b ∷ buffers) n h = elim (dec_lt 0 n) [
  | no none_left ↦ (
    b ∷ buffers,
    ground arith,
    let e : 0 ≡ n = omega arith in ap (λ k. drop k (bytes (b ∷ buffers))) e,
  )
  | yes more ↦ elim (dec_lt n (size b)) [
    | yes inside ↦
        let r = remove_prefix-str b n (omega arith) in
        (
          r.0 ∷ buffers,
          ground (arith, r.1),
          ap (λ s. s ++ bytes buffers) r.2 ∙ drop-append_le n (str b) (bytes buffers) (omega arith),
        )
    | no beyond ↦
        let r =
          list_remove_prefix-bytes buffers (n - size b)
            (omega (arith, length-append (str b) (bytes buffers))) in
        (r.0, ground (arith, r.1), r.2 ∙ drop-append_ge n (str b) (bytes buffers) (omega arith))
  ]
]

-- Removing at most as many bytes as a list of buffers has leaves the rest of its string, wherever the
-- borders between the buffers are.
pub list_remove_prefix-concatenate :
    (buffers : BufferList) (n : ℕ)
    → n ≤ list_size buffers
    → (rest : BufferList) × (list_remove_prefix buffers n ≡ some rest)
      × (concatenate rest ≡ drop n (concatenate buffers))
unfolding list_size
list_remove_prefix-concatenate buffers n h =
    let r = list_remove_prefix-bytes buffers n (omega (arith, size_onto-bytes 0 buffers)) in
    (r.0, r.1, concatenate-bytes r.0 ∙ r.2 ∙ ap (drop n) (sym (concatenate-bytes buffers)))
