-- ===== src/Prelude/Pigeonhole.antt =====
-- Distinct values among as many others are all of them.
use Prim.Native.Nat.{suc, ◌≤◌}
use mathlib.Core.Path.{◌≡◌, sym, ◌∙◌}
use mathlib.Core.Logic.{inl, inr}
use mathlib.Core.Bool.{true, false}
use mathlib.Core.List.{List, [], ◌∷◌}
use native.Mathlib.Omega.{arith}
use kommunsign.Prelude.Tests.{if◌then◌else◌, Bool-cases}
use kommunsign.Prelude.Equality.{Eq, ◌==◌, ==_iff, ==-comm}
use kommunsign.Prelude.Lists.{length, All, includes, Distinct}

module _ {ℓ} {A : Type ℓ} ⦃e : Eq A⦄ where
  erase : A → List A → List A
  erase x [] = []
  erase x (y ∷ ys) = let rest = y ∷ erase x ys in if x == y then ys else rest

  length-erase :
      (x : A) (ys : List A) → includes ys x ≡ true → suc (length (erase x ys)) ≡ length ys
  unfolding erase
  length-erase x [] h = cc
  length-erase x (y ∷ ys) h = ground (arith, ==-comm x y, length-erase x ys)

  includes-erase :
      (x : A) (ys : List A) (z : A)
      → (x == z) ≡ false
      → includes ys z ≡ true
      → includes (erase x ys) z ≡ true
  unfolding erase
  includes-erase x [] z ne h = h
  includes-erase x (y ∷ ys) z ne h = elim (Bool-cases (x == y)) [
    | inl same ↦ rw same (elim (Bool-cases (y == z)) [
      | inl hit ↦
          absurd (clash (sym ne ∙ (==_iff x z).1 ((==_iff x y).0 same ∙ (==_iff y z).0 hit)))
      | inr miss ↦ rw miss at h
    ])
    | inr other ↦ rw other (ground (arith, h, includes-erase x ys z ne))
  ]
    where
      clash : false ≡ true → ⊥
      clash q = cc

  All-erase :
      (x : A) (xs ys : List A)
      → includes xs x ≡ false
      → All (λ z. includes ys z ≡ true) xs
      → All (λ z. includes (erase x ys) z ≡ true) xs
  All-erase x [] ys d h = tt
  All-erase x (z ∷ zs) ys d h = (
    includes-erase x ys z (ground (arith, d, ==-comm x z)) h.0,
    All-erase x zs ys (ground (arith, d)) h.1,
  )

  pub pigeonhole :
      (xs ys : List A)
      → Distinct xs
      → All (λ x. includes ys x ≡ true) xs
      → length ys ≤ length xs
      → (y : A) → includes ys y ≡ true
      → includes xs y ≡ true
  pigeonhole [] [] d h le y m = m
  pigeonhole [] (z ∷ zs) d h le y m = absurd (omega arith)
  pigeonhole (x ∷ xs) ys d h le y m = elim (Bool-cases (x == y)) [
    | inl same ↦ rw same
    | inr other ↦ rw other (
        pigeonhole xs (erase x ys) d.1 (All-erase x xs ys d.0 h.1)
          (omega (arith, length-erase x ys h.0)) y (includes-erase x ys y other m))
  ]
