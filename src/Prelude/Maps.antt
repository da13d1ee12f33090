-- ===== src/Prelude/Maps.antt =====
-- Maps from native numbers, such as `std::unordered_map` with integer keys, as association lists.
use Prim.Native.Nat.{ℕ}
use mathlib.Core.Path.{◌≡◌, refl, sym, ap, ◌∙◌}
use mathlib.Core.Logic.{◌≢◌}
use mathlib.Core.Bool.{Bool, true, false}
use mathlib.Core.List.{List, [], ◌∷◌}
use mathlib.Core.Option.{Option, none, some}
use native.Mathlib.Omega.{arith}
use csed353_computer_network.Prelude.Tests.{◌==◌, if◌then◌else◌, if_elim}

module _ {ℓ} {A : Type ℓ} where
  unfoldable pub lookup : ℕ → List (ℕ × A) → Option A
  lookup k [] = none
  lookup k (entry ∷ rest) =
      let later = lookup k rest in if entry.0 == k then some entry.1 else later

  unfoldable pub assign : ℕ → A → List (ℕ × A) → List (ℕ × A)
  assign k v [] = (k, v) ∷ []
  assign k v (entry ∷ rest) =
      let later = assign k v rest in if entry.0 == k then (k, v) ∷ rest else entry ∷ later

  unfoldable pub erase : ℕ → List (ℕ × A) → List (ℕ × A)
  erase k [] = []
  erase k (entry ∷ rest) = let later = erase k rest in if entry.0 == k then later else entry ∷ later

  unfoldable pub erase_keys : List ℕ → List (ℕ × A) → List (ℕ × A)
  erase_keys [] m = m
  erase_keys (k ∷ ks) m = erase_keys ks (erase k m)

  -- No key stands in the list twice.
  unfoldable pub Distinct : List (ℕ × A) → Type ℓ
  Distinct [] = Unit
  Distinct (entry ∷ rest) = (lookup entry.0 rest ≡ none) × Distinct rest

unfoldable pub has : List ℕ → ℕ → Bool
has [] k = false
has (j ∷ js) k = let later = has js k in if j == k then true else later

module _ {ℓ} {A : Type ℓ} where
  pub lookup-assign_self : (k : ℕ) (v : A) (m : List (ℕ × A)) → lookup k (assign k v m) ≡ some v
  unfolding lookup assign
  lookup-assign_self k v [] = ground arith
  lookup-assign_self k v (entry ∷ rest) = ground (arith, lookup-assign_self k v rest)

  pub lookup-assign_ne :
      (k j : ℕ) (v : A) (m : List (ℕ × A)) → k ≢ j → lookup j (assign k v m) ≡ lookup j m
  unfolding lookup assign
  lookup-assign_ne k j v [] ne = ground arith
  lookup-assign_ne k j v (entry ∷ rest) ne = ground (arith, lookup-assign_ne k j v rest ne)

  pub lookup-erase_self : (k : ℕ) (m : List (ℕ × A)) → lookup k (erase k m) ≡ none
  unfolding lookup erase
  lookup-erase_self k [] = refl
  lookup-erase_self k (entry ∷ rest) = ground (arith, lookup-erase_self k rest)

  pub lookup-erase_ne : (k j : ℕ) (m : List (ℕ × A)) → k ≢ j → lookup j (erase k m) ≡ lookup j m
  unfolding lookup erase
  lookup-erase_ne k j [] ne = refl
  lookup-erase_ne k j (entry ∷ rest) ne = ground (arith, lookup-erase_ne k j rest ne)

  -- An entry that was not there is not there after an `erase` either.
  lookup-erase-none : (k j : ℕ) (m : List (ℕ × A)) → lookup j m ≡ none → lookup j (erase k m) ≡ none
  unfolding lookup erase
  lookup-erase-none k j [] h = refl
  lookup-erase-none k j (entry ∷ rest) h = ground (arith, lookup-erase-none k j rest)

  pub lookup-erase_keys :
      (ks : List ℕ) (k : ℕ) (m : List (ℕ × A))
      → lookup k (erase_keys ks m) ≡ (if has ks k then none else lookup k m)
  unfolding has erase_keys
  lookup-erase_keys [] k m = refl
  lookup-erase_keys (j ∷ js) k m =
      lookup-erase_keys js k (erase j m)
      ∙ if_elim
          (λ b.
            (if has js k then none else lookup k (erase j m)) ≡ (if b then none else lookup k m))
          (j == k) true (has js k)
          (λ e.
            let same : j ≡ k = ground arith in
            let gone : lookup k (erase j m) ≡ none =
              ap (λ i. lookup k (erase i m)) same ∙ lookup-erase_self k m in
            ap (λ o. if has js k then none else o) gone
            ∙ if_elim (λ o. o ≡ none) (has js k) none none (λ _. refl) (λ _. refl))
          (λ e.
            ap (λ o. if has js k then none else o)
              (lookup-erase_ne j k m (λ (same : j ≡ k). ground arith)))

  pub Distinct-assign : (k : ℕ) (v : A) (m : List (ℕ × A)) → Distinct m → Distinct (assign k v m)
  unfolding lookup assign Distinct
  Distinct-assign k v [] h = (refl, tt)
  Distinct-assign k v (entry ∷ rest) h =
      if_elim Distinct (entry.0 == k) ((k, v) ∷ rest) (entry ∷ assign k v rest)
        (λ e.
          let same : entry.0 ≡ k = ground arith in (ap (λ i. lookup i rest) (sym same) ∙ h.0, h.1))
        (λ e. (
          lookup-assign_ne k entry.0 v rest (λ (same : k ≡ entry.0). ground arith) ∙ h.0,
          Distinct-assign k v rest h.1,
        ))

  pub Distinct-erase : (k : ℕ) (m : List (ℕ × A)) → Distinct m → Distinct (erase k m)
  unfolding lookup erase Distinct
  Distinct-erase k [] h = tt
  Distinct-erase k (entry ∷ rest) h =
      if_elim Distinct (entry.0 == k) (erase k rest) (entry ∷ erase k rest)
        (λ e. Distinct-erase k rest h.1)
        (λ e. (lookup-erase-none k entry.0 rest h.0, Distinct-erase k rest h.1))

  pub Distinct-erase_keys :
      (ks : List ℕ) (m : List (ℕ × A)) → Distinct m → Distinct (erase_keys ks m)
  unfolding erase_keys
  Distinct-erase_keys [] m h = h
  Distinct-erase_keys (k ∷ ks) m h = Distinct-erase_keys ks (erase k m) (Distinct-erase k m h)
