-- ===== src/Prelude/Unique.antt =====
-- `new Set(xs).size !== xs.length`, the test for duplicates.
use Prim.Native.Nat.{suc, ◌≤◌}
use mathlib.Core.Path.{◌≡◌, refl, ap, subst}
use mathlib.Core.Logic.{inl, inr, ◌↔◌}
use mathlib.Core.Bool.{Bool, true, false, ◌||◌}
use mathlib.Core.List.{List, [], ◌∷◌}
use native.Mathlib.Omega.{arith}
use kommunsign.Prelude.Tests.{Bool-cases}
use kommunsign.Prelude.Equality.{Eq, ◌==◌, ◌!=◌, ==-comm, ==_iff, nat_eq}
use kommunsign.Prelude.Lists.{
  length, includes, Distinct, dedup_from, unique, Fresh, Fresh-cons, Fresh-nil,
}

module _ {ℓ} {A : Type ℓ} ⦃e : Eq A⦄ where
  abbrev pub has_duplicates : List A → Bool
  has_duplicates xs = length (unique xs) != length xs

  length-dedup_from : (seen xs : List A) → length (dedup_from seen xs) ≤ length xs
  length-dedup_from seen [] = omega arith
  length-dedup_from seen (x ∷ xs) =
      ground (arith, length-dedup_from seen xs, length-dedup_from (x ∷ seen) xs)

  dedup_from_full :
      (seen xs : List A) → length (dedup_from seen xs) ≡ length xs → Fresh seen xs × Distinct xs
  dedup_from_full seen [] h = (tt, tt)
  dedup_from_full seen (x ∷ xs) h = elim (Bool-cases (includes seen x)) [
    | inl old ↦ absurd (ground (arith, length-dedup_from seen xs))
    | inr new ↦
        let (later, distinct) = dedup_from_full (x ∷ seen) xs (ground (arith, new, h)) in
        let (fresh, absent) = Fresh-cons x seen xs later in ((new, fresh), (absent, distinct))
  ]

  pub Fresh-push :
      (x : A) (seen xs : List A) → Fresh seen xs → includes xs x ≡ false → Fresh (x ∷ seen) xs
  Fresh-push x seen [] h a = tt
  Fresh-push x seen (y ∷ ys) h a =
      (ground (arith, h.0, a, ==-comm x y), Fresh-push x seen ys h.1 (ground (arith, a)))

  dedup_from-Fresh :
      (seen xs : List A) → Fresh seen xs → Distinct xs → length (dedup_from seen xs) ≡ length xs
  dedup_from-Fresh seen [] f d = refl
  dedup_from-Fresh seen (x ∷ xs) f d =
      rw f.0 (ap suc (dedup_from-Fresh (x ∷ seen) xs (Fresh-push x seen xs f.1 d.0) d.1))

  pub duplicates_iff : (xs : List A) → (has_duplicates xs ≡ false) ↔ Distinct xs
  duplicates_iff xs = (
    λ h. (dedup_from_full [] xs (ground arith)).1,
    λ d. ground (arith, dedup_from-Fresh [] xs (Fresh-nil xs) d),
  )

  includes-dedup_from :
      (seen xs : List A) (a : A)
      → (includes (dedup_from seen xs) a || includes seen a) ≡ (includes xs a || includes seen a)
  includes-dedup_from seen [] a = refl
  includes-dedup_from seen (x ∷ xs) a = elim (Bool-cases (includes seen x)) [
    | inl old ↦ elim (Bool-cases (x == a)) [
      | inl same ↦
          let held : includes seen a ≡ true =
            subst (λ b. includes seen b ≡ true) ((==_iff x a).0 same) old in
          ground (arith, held, old)
      | inr other ↦ ground (arith, old, other, includes-dedup_from seen xs a)
    ]
    | inr new ↦ ground (arith, new, includes-dedup_from (x ∷ seen) xs a)
  ]

  -- The values of a set are those of the list.
  pub includes-unique : (xs : List A) (a : A) → includes (unique xs) a ≡ includes xs a
  includes-unique xs a = ground (arith, includes-dedup_from [] xs a)
