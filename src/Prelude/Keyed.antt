-- ===== src/Prelude/Keyed.antt =====
-- Sorting by a number: with no number twice, the result does not depend on the order before.
use Prim.Native.Nat.{ℕ}
use mathlib.Core.Path.{◌≡◌, refl}
use mathlib.Core.Logic.{inl, inr}
use mathlib.Core.Bool.{Bool, true, false}
use mathlib.Core.List.{List, [], ◌∷◌, map, Permᴰ}
use mathlib.Core.List.Permᴰ
use native.Mathlib.Omega.{arith}
use kommunsign.Prelude.Tests.{leb, Bool-cases}
use kommunsign.Prelude.Equality.{nat_eq}
use kommunsign.Prelude.Lists.{Distinct}
use kommunsign.Prelude.Ordered
use kommunsign.Prelude.Sort.{insert, sort}

module _ {ℓ} {A : Type ℓ} (le : A → A → Bool) where
  insert-Perm : (x : A) (xs : List A) → Permᴰ (insert le x xs) (x ∷ xs)
  insert-Perm x [] = Permᴰ.refl (x ∷ [])
  insert-Perm x (y ∷ ys) = elim (Bool-cases (le x y)) [
    | inl lo ↦ rw lo (Permᴰ.refl (x ∷ y ∷ ys))
    | inr hi ↦ rw hi (Permᴰ.trans (Permᴰ.cons refl (insert-Perm x ys)) (Permᴰ.swap refl refl))
  ]

  -- Sorting permutes.
  pub sort-Perm : (xs : List A) → Permᴰ (sort le xs) xs
  sort-Perm [] = Permᴰ.nil
  sort-Perm (x ∷ xs) = Permᴰ.trans (insert-Perm x (sort le xs)) (Permᴰ.cons refl (sort-Perm xs))

leb_trans : (x y z : ℕ) → leb x y ≡ true → leb y z ≡ true → leb x z ≡ true
leb_trans x y z h k = ground arith

leb-total : (x y : ℕ) → leb x y ≡ false → leb y x ≡ true
leb-total x y h = ground arith

leb-antisym : (x y : ℕ) → leb x y ≡ true → leb y x ≡ true → x ≡ y
leb-antisym x y h k = ground arith

module _ {A : Type 0} (key : A → ℕ) where
  abbrev pub by_key : A → A → Bool
  by_key a b = leb (key a) (key b)

  pub Distinct-along :
      {xs ys : List A} → Permᴰ xs ys → Distinct (map key xs) → Distinct (map key ys)
  Distinct-along p d = Ordered.Distinct-along leb leb_trans leb-total leb-antisym key p d

  pub sort_of_Perm :
      {xs ys : List A} → Permᴰ xs ys → Distinct (map key xs) → sort by_key xs ≡ sort by_key ys
  sort_of_Perm p d = Ordered.sort_of_Perm leb leb_trans leb-total leb-antisym key p d
