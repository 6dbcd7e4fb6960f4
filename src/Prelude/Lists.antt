-- ===== src/Prelude/Lists.antt =====
-- Lists measured by native numbers, and the array methods that the source calls.
use Prim.Native.Nat.{ℕ, zero, suc, ◌+◌}
use mathlib.Core.Path.{◌≡◌, refl, sym}
use mathlib.Core.Logic.{◌↔◌, inl, inr}
use mathlib.Core.Bool.{Bool, true, false, ◌||◌, ◌&&◌}
use mathlib.Core.Option.{Option, none, some}
use mathlib.Core.List.{List, [], ◌∷◌, ◌++◌, Memᴰ}
use native.Mathlib.Omega.{arith}
use kommunsign.Prelude.Tests.{if◌then◌else◌, Bool-cases}
use kommunsign.Prelude.Equality.{Eq, ◌==◌, ==_iff, ==-comm}

module _ {ℓ} {A : Type ℓ} where
  abbrev pub length : List A → ℕ
  length [] = 0
  length (x ∷ xs) = suc (length xs)

  abbrev pub is_empty : List A → Bool
  is_empty [] = true
  is_empty (x ∷ xs) = false

  abbrev pub take : ℕ → List A → List A
  take zero xs = []
  take (suc n) [] = []
  take (suc n) (x ∷ xs) = x ∷ take n xs

  abbrev pub drop : ℕ → List A → List A
  drop zero xs = xs
  drop (suc n) [] = []
  drop (suc n) (x ∷ xs) = drop n xs

  abbrev pub replicate : ℕ → A → List A
  replicate zero a = []
  replicate (suc n) a = a ∷ replicate n a

  -- `xs.filter(p)`, `xs.some(p)`, `xs.every(p)` and `xs.find(p)`.
  abbrev pub filter : (A → Bool) → List A → List A
  filter p [] = []
  filter p (x ∷ xs) = if p x then x ∷ filter p xs else filter p xs

  abbrev pub any : (A → Bool) → List A → Bool
  any p [] = false
  any p (x ∷ xs) = p x || any p xs

  abbrev pub all : (A → Bool) → List A → Bool
  all p [] = true
  all p (x ∷ xs) = p x && all p xs

  abbrev pub find : (A → Bool) → List A → Option A
  find p [] = none
  find p (x ∷ xs) = if p x then some x else find p xs

  -- `xs.reduce((total, x) => total + f(x), 0)`, as the sum that it computes.
  abbrev pub sum_by : (A → ℕ) → List A → ℕ
  sum_by f [] = 0
  sum_by f (x ∷ xs) = f x + sum_by f xs

  -- Every element has the property.
  abbrev pub All {κ} : (A → Type κ) → List A → Type κ
  All P [] = Unit
  All P (x ∷ xs) = P x × All P xs

  pub All-map {κ μ} :
      {P : A → Type κ} {Q : A → Type μ}
      → ((a : A) → P a → Q a)
      → (xs : List A) → All P xs
      → All Q xs
  All-map f [] h = tt
  All-map f (x ∷ xs) h = (f x h.0, All-map f xs h.1)

  pub All-Memᴰ {κ} : (P : A → Type κ) (xs : List A) → All P xs → {a : A} → Memᴰ a xs → P a
  All-Memᴰ P [] h m = elim m [ ]
  All-Memᴰ P (x ∷ xs) (px, pxs) (Memᴰ.head e) = rw e px
  All-Memᴰ P (x ∷ xs) (px, pxs) (Memᴰ.tail m) = All-Memᴰ P xs pxs m

  pub length-append : (xs ys : List A) → length (xs ++ ys) ≡ length xs + length ys
  length-append [] ys = omega arith
  length-append (x ∷ xs) ys = omega (arith, length-append xs ys)

  pub filter-eq-nil_iff :
      (p : A → Bool) (xs : List A) → (filter p xs ≡ []) ↔ All (λ x. p x ≡ false) xs
  filter-eq-nil_iff p [] = (λ _. tt, λ _. refl)
  filter-eq-nil_iff p (x ∷ xs) =
      let ih = filter-eq-nil_iff p xs in
      elim (Bool-cases (p x)) [
        | inl hit ↦ (λ e. (cc, cc), λ h. cc)
        | inr miss ↦ rw miss (λ e. (refl, ih.0 e), λ h. ih.1 h.1)
      ]

  pub filter-All : (p : A → Bool) (xs : List A) → All (λ x. p x ≡ true) (filter p xs)
  filter-All p [] = tt
  filter-All p (x ∷ xs) = elim (Bool-cases (p x)) [
    | inl hit ↦ rw hit (hit, filter-All p xs)
    | inr miss ↦ rw miss (filter-All p xs)
  ]

module _ {ℓ} {A : Type ℓ} ⦃e : Eq A⦄ where
  -- `xs.includes(a)`.
  abbrev pub includes : List A → A → Bool
  includes [] a = false
  includes (x ∷ xs) a = x == a || includes xs a

  -- `[...new Set(xs)]`: the first of each value, in order of insertion.
  abbrev pub dedup_from : List A → List A → List A
  dedup_from seen [] = []
  dedup_from seen (x ∷ xs) =
      let kept = x ∷ dedup_from (x ∷ seen) xs in
      let skipped = dedup_from seen xs in if includes seen x then skipped else kept

  abbrev pub unique : List A → List A
  unique = dedup_from []

  -- No value stands twice.
  abbrev pub Distinct : List A → Type 0
  Distinct [] = Unit
  Distinct (x ∷ xs) = (includes xs x ≡ false) × Distinct xs

  pub includes-Memᴰ : (xs : List A) (a : A) → includes xs a ≡ true → Memᴰ a xs
  includes-Memᴰ [] a h = absurd (cc)
  includes-Memᴰ (x ∷ xs) a h = elim (Bool-cases (x == a)) [
    | inl same ↦ Memᴰ.head (sym ((==_iff x a).0 same))
    | inr other ↦ Memᴰ.tail (includes-Memᴰ xs a (rw other at h))
  ]

  -- What `some` finds.
  pub any_found :
      (p : A → Bool) (xs : List A)
      → any p xs ≡ true
      → (a : A) × (includes xs a ≡ true) × (p a ≡ true)
  any_found p [] h = absurd (cc)
  any_found p (x ∷ xs) h = elim (Bool-cases (p x)) [
    | inl hit ↦ (x, rw ((==_iff x x).1 refl) refl, hit)
    | inr miss ↦
        let (a, among, hit) = any_found p xs (rw miss at h) in (a, ground (arith, among), hit)
  ]

  pub includes-append :
      (xs ys : List A) (a : A) → includes (xs ++ ys) a ≡ (includes xs a || includes ys a)
  includes-append [] ys a = refl
  includes-append (x ∷ xs) ys a = ground (arith, includes-append xs ys a)

  -- None of the values has been seen: the loops that keep a set of what they met.
  abbrev pub Fresh : List A → List A → Type 0
  Fresh seen xs = All (λ x. includes seen x ≡ false) xs

  pub Fresh-cons :
      (x : A) (seen xs : List A) → Fresh (x ∷ seen) xs → Fresh seen xs × (includes xs x ≡ false)
  Fresh-cons x seen [] h = (tt, refl)
  Fresh-cons x seen (y ∷ ys) h =
      let (rest, new) = Fresh-cons x seen ys h.1 in
      ((ground (arith, h.0), rest), ground (arith, h.0, ==-comm y x, new))

  pub Fresh-nil : (xs : List A) → Fresh [] xs
  Fresh-nil [] = tt
  Fresh-nil (x ∷ xs) = (refl, Fresh-nil xs)

  -- A value that is not there may be put behind the others.
  pub Distinct-push :
      (xs : List A) (x : A) → includes xs x ≡ false → Distinct xs → Distinct (xs ++ x ∷ [])
  Distinct-push [] x h d = (refl, tt)
  Distinct-push (y ∷ ys) x h d = (
    ground (arith, h, d.0, includes-append ys (x ∷ []) y, ==-comm x y),
    Distinct-push ys x (ground (arith, h)) d.1,
  )
