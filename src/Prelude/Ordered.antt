-- ===== src/Prelude/Ordered.antt =====
-- Sorting by a key with a total order: with no key twice, the result does not depend on the order
-- before.
use mathlib.Core.Path.{◌≡◌, refl, sym, ap, subst, ◌∙◌}
use mathlib.Core.Logic.{◌≢◌, inl, inr}
use mathlib.Core.Bool.{Bool, true, false}
use mathlib.Core.List.{List, [], ◌∷◌, map, Permᴰ}
use native.Mathlib.Omega.{arith}
use kommunsign.Prelude.Tests.{Bool-cases}
use kommunsign.Prelude.Equality.{Eq, ◌==◌, ==_iff, ==-comm}
use kommunsign.Prelude.Lists.{includes, Distinct}
use kommunsign.Prelude.Sort.{insert, sort}

module _ {A K : Type 0} ⦃e : Eq K⦄ (le : K → K → Bool)
    (trans : (x y z : K) → le x y ≡ true → le y z ≡ true → le x z ≡ true)
    (total : (x y : K) → le x y ≡ false → le y x ≡ true)
    (antisym : (x y : K) → le x y ≡ true → le y x ≡ true → x ≡ y) (key : A → K) where
  abbrev pub ordered_by : A → A → Bool
  ordered_by a b = le (key a) (key b)

  -- Of two different keys the other one is not at most the first.
  strict : (x y : K) → x ≢ y → le x y ≡ true → le y x ≡ false
  strict x y ne h = elim (Bool-cases (le y x)) [
    | inl back ↦ absurd (ne (antisym x y h back))
    | inr fine ↦ fine
  ]

  insert_around :
      (x y z : A) (zs : List A)
      → key x ≢ key y
      → insert ordered_by x (insert ordered_by y zs) ≡ insert ordered_by y (insert ordered_by x zs)
      → insert ordered_by x (insert ordered_by y (z ∷ zs))
        ≡ insert ordered_by y (insert ordered_by x (z ∷ zs))
  insert_around x y z zs ne ih = ground (
    arith,
    ih,
    strict (key x) (key y) ne,
    total (key x) (key y),
    total (key x) (key z),
    total (key y) (key z),
    trans (key x) (key z) (key y),
    trans (key y) (key z) (key x),
    trans (key x) (key y) (key z),
    trans (key y) (key x) (key z),
  )

  insert_swap :
      (x y : A) (l : List A)
      → key x ≢ key y
      → insert ordered_by x (insert ordered_by y l) ≡ insert ordered_by y (insert ordered_by x l)
  insert_swap x y [] ne = ground (arith, strict (key x) (key y) ne, total (key x) (key y))
  insert_swap x y (z ∷ zs) ne = insert_around x y z zs ne (insert_swap x y zs ne)

  has_key :
      {xs ys : List A} → Permᴰ xs ys → (k : K) → includes (map key xs) k ≡ includes (map key ys) k
  has_key Permᴰ.nil k = refl
  has_key (Permᴰ.cons e p) k = ground (arith, ap key e, has_key p k)
  has_key (Permᴰ.swap e e') k = ground (arith, ap key e, ap key e')
  has_key (Permᴰ.trans p q) k = has_key p k ∙ has_key q k

  swap-Distinct :
      (x y : A) (l : List A)
      → Distinct (key x ∷ key y ∷ map key l)
      → Distinct (key y ∷ key x ∷ map key l)
  swap-Distinct x y l d = ground (arith, d, ==-comm (key x) (key y))

  pub Distinct-along :
      {xs ys : List A} → Permᴰ xs ys → Distinct (map key xs) → Distinct (map key ys)
  Distinct-along Permᴰ.nil d = tt
  Distinct-along (Permᴰ.cons {b = b} {l₁ = l₁} e p) d = (
    sym (has_key p (key b)) ∙ subst (λ c. includes (map key l₁) (key c) ≡ false) e d.0,
    Distinct-along p d.1,
  )
  Distinct-along (Permᴰ.swap {a = a} {b = b} {l = l} e e') d =
      rw (sym e, sym e') (swap-Distinct a b l d)
  Distinct-along (Permᴰ.trans p q) d = Distinct-along q (Distinct-along p d)

  differ_of_Distinct : (x y : A) (l : List A) → Distinct (key x ∷ key y ∷ map key l) → key x ≢ key y
  differ_of_Distinct x y l d e =
      let same : (key y == key x) ≡ true = (==_iff (key y) (key x)).1 (sym e) in
      ground (arith, d, same)

  pub sort_of_Perm :
      {xs ys : List A}
      → Permᴰ xs ys
      → Distinct (map key xs)
      → sort ordered_by xs ≡ sort ordered_by ys
  sort_of_Perm Permᴰ.nil d = refl
  sort_of_Perm (Permᴰ.cons {a = a} e p) d =
      rw (sym e) (ap (insert ordered_by a) (sort_of_Perm p d.1))
  sort_of_Perm (Permᴰ.swap {a = a} {b = b} {l = l} e e') d =
      rw (sym e, sym e') (insert_swap a b (sort ordered_by l) (differ_of_Distinct a b l d))
  sort_of_Perm (Permᴰ.trans p q) d = sort_of_Perm p d ∙ sort_of_Perm q (Distinct-along p d)
