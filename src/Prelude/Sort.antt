-- ===== src/Prelude/Sort.antt =====
-- `Array.prototype.sort`, which is stable, as an insertion sort by a test `le` (the comparator of
-- the source returns at most 0).
use Prim.Native.Nat.{suc}
use mathlib.Core.Path.{◌≡◌, refl, ap, ◌∙◌}
use mathlib.Core.Logic.{inl, inr}
use mathlib.Core.Bool.{Bool, true, false, ◌||◌}
use mathlib.Core.List.{List, [], ◌∷◌}
use native.Mathlib.Omega.{arith}
use kommunsign.Prelude.Tests.{if◌then◌else◌, Bool-cases}
use kommunsign.Prelude.Equality.{Eq, ◌==◌, ==-comm}
use kommunsign.Prelude.Lists.{length, All, any, includes, Distinct}

module _ {ℓ} {A : Type ℓ} (le : A → A → Bool) where
  abbrev pub insert : A → List A → List A
  insert x [] = x ∷ []
  insert x (y ∷ ys) = let rest = y ∷ insert x ys in if le x y then x ∷ y ∷ ys else rest

  abbrev pub sort : List A → List A
  sort [] = []
  sort (x ∷ xs) = insert x (sort xs)

  -- Every element is at most each one behind it.
  abbrev pub IsSorted : List A → Type 0
  IsSorted [] = Unit
  IsSorted (x ∷ xs) = All (λ y. le x y ≡ true) xs × IsSorted xs

  pub length-insert : (x : A) (xs : List A) → length (insert x xs) ≡ suc (length xs)
  length-insert x [] = refl
  length-insert x (y ∷ ys) = ground (arith, length-insert x ys)

  pub length-sort : (xs : List A) → length (sort xs) ≡ length xs
  length-sort [] = refl
  length-sort (x ∷ xs) = length-insert x (sort xs) ∙ ap suc (length-sort xs)

  pub All-insert {κ} : (P : A → Type κ) (x : A) (xs : List A) → P x → All P xs → All P (insert x xs)
  All-insert P x [] px h = (px, tt)
  All-insert P x (y ∷ ys) px h = elim (Bool-cases (le x y)) [
    | inl lo ↦ rw lo (px, h)
    | inr hi ↦ rw hi (h.0, All-insert P x ys px h.1)
  ]

  pub All-sort {κ} : (P : A → Type κ) (xs : List A) → All P xs → All P (sort xs)
  All-sort P [] h = tt
  All-sort P (x ∷ xs) h = All-insert P x (sort xs) h.0 (All-sort P xs h.1)

  any-insert : (p : A → Bool) (x : A) (xs : List A) → any p (insert x xs) ≡ (p x || any p xs)
  any-insert p x [] = refl
  any-insert p x (y ∷ ys) = ground (arith, any-insert p x ys)

  pub any-sort : (p : A → Bool) (xs : List A) → any p (sort xs) ≡ any p xs
  any-sort p [] = refl
  any-sort p (x ∷ xs) = any-insert p x (sort xs) ∙ ap (λ b. p x || b) (any-sort p xs)

  -- A list in order is left as it is.
  pub sort_of_IsSorted : (xs : List A) → IsSorted xs → sort xs ≡ xs
  sort_of_IsSorted [] h = refl
  sort_of_IsSorted (x ∷ []) h = refl
  sort_of_IsSorted (x ∷ y ∷ ys) h = ap (insert x) (sort_of_IsSorted (y ∷ ys) h.1) ∙ ground arith

module _ {ℓ} {A : Type ℓ} (le : A → A → Bool)
    (trans : (x y z : A) → le x y ≡ true → le y z ≡ true → le x z ≡ true)
    (total : (x y : A) → le x y ≡ false → le y x ≡ true) where
  All_of_le :
      (x y : A) (ys : List A)
      → le x y ≡ true
      → All (λ z. le y z ≡ true) ys
      → All (λ z. le x z ≡ true) ys
  All_of_le x y [] h all = tt
  All_of_le x y (z ∷ ys) h all = (trans x y z h all.0, All_of_le x y ys h all.1)

  insert-IsSorted : (x : A) (xs : List A) → IsSorted le xs → IsSorted le (insert le x xs)
  insert-IsSorted x [] h = (tt, tt)
  insert-IsSorted x (y ∷ ys) h = elim (Bool-cases (le x y)) [
    | inl lo ↦ rw lo ((lo, All_of_le x y ys lo h.0), h)
    | inr hi ↦
        rw hi (All-insert le (λ z. le y z ≡ true) x ys (total x y hi) h.0, insert-IsSorted x ys h.1)
  ]

  pub sort-IsSorted : (xs : List A) → IsSorted le (sort le xs)
  sort-IsSorted [] = tt
  sort-IsSorted (x ∷ xs) = insert-IsSorted x (sort le xs) (sort-IsSorted xs)

module _ {ℓ} {A : Type ℓ} ⦃e : Eq A⦄ (le : A → A → Bool) where
  pub includes-insert :
      (x : A) (xs : List A) (a : A) → includes (insert le x xs) a ≡ (x == a || includes xs a)
  includes-insert x [] a = refl
  includes-insert x (y ∷ ys) a = ground (arith, includes-insert x ys a)

  -- Sorting keeps the elements.
  pub includes-sort : (xs : List A) (a : A) → includes (sort le xs) a ≡ includes xs a
  includes-sort [] a = refl
  includes-sort (x ∷ xs) a =
      includes-insert x (sort le xs) a ∙ ap (λ b. x == a || b) (includes-sort xs a)

  insert-Distinct :
      (x : A) (xs : List A) → includes xs x ≡ false → Distinct xs → Distinct (insert le x xs)
  insert-Distinct x [] h d = (refl, tt)
  insert-Distinct x (y ∷ ys) h d = elim (Bool-cases (le x y)) [
    | inl lo ↦ rw lo (h, d)
    | inr hi ↦ rw hi (
      includes-insert x ys y ∙ ground (arith, h, d.0, ==-comm x y),
      insert-Distinct x ys (ground (arith, h)) d.1,
    )
  ]

  pub sort-Distinct : (xs : List A) → Distinct xs → Distinct (sort le xs)
  sort-Distinct [] d = tt
  sort-Distinct (x ∷ xs) d =
      insert-Distinct x (sort le xs) (includes-sort xs x ∙ d.0) (sort-Distinct xs d.1)
