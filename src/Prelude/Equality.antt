-- ===== src/Prelude/Equality.antt =====
-- The test `===` of the source, as an operator with an instance for each type that it compares.
use Prim.Native.Nat.{ℕ}
use Prim.Native.String.{String}
use mathlib.Core.Path.{◌≡◌, refl, ap, sym, ◌∙◌}
use mathlib.Core.Logic.{◌↔◌, ◌≢◌, inl, inr}
use mathlib.Core.Bool.{Bool, true, false, not}
use text.Mathlib.Text.{◌==◌ as string_beq}
use text.Mathlib.TextEquality.{eq_iff as string_beq_iff}
use kommunsign.Prelude.Tests.{nat_beq, nat_beq_iff, Bool-cases}

pub record Eq {ℓ} (A : Type ℓ) : Type ℓ where
  pub same_as : A → A → Bool
  pub same_iff : (a b : A) → (same_as a b ≡ true) ↔ (a ≡ b)

infix 50 ◌==◌ ◌!=◌
abbrev pub ◌==◌ {ℓ} : {A : Type ℓ} ⦃e : Eq A⦄ → A → A → Bool
◌==◌ ⦃e⦄ = e.same_as

abbrev pub ◌!=◌ {ℓ} : {A : Type ℓ} ⦃e : Eq A⦄ → A → A → Bool
◌!=◌ ⦃e⦄ a b = not (e.same_as a b)

instance abbrev pub nat_eq : Eq ℕ
nat_eq = record { same_as = nat_beq; same_iff = nat_beq_iff }

instance abbrev pub string_eq : Eq String
string_eq = record { same_as = string_beq; same_iff = string_beq_iff }

false-true : false ≡ true → ⊥
false-true h = cc

module _ {ℓ} {A : Type ℓ} ⦃e : Eq A⦄ where
  pub ==_iff : (a b : A) → ((a == b) ≡ true) ↔ (a ≡ b)
  ==_iff a b = e.same_iff a b

  pub ==-self : (a : A) → (a == a) ≡ true
  ==-self a = (e.same_iff a a).1 refl

  pub ==-false_of_ne : (a b : A) → a ≢ b → (a == b) ≡ false
  ==-false_of_ne a b h = elim (Bool-cases (a == b)) [
    | inl same ↦ absurd (h ((e.same_iff a b).0 same))
    | inr other ↦ other
  ]

  pub ==-comm : (a b : A) → (a == b) ≡ (b == a)
  ==-comm a b = elim (Bool-cases (a == b)) [
    | inl same ↦ rw (same, (e.same_iff b a).1 (sym ((e.same_iff a b).0 same)))
    | inr other ↦ elim (Bool-cases (b == a)) [
      | inl same ↦
          absurd (false-true (sym other ∙ (e.same_iff a b).1 (sym ((e.same_iff b a).0 same))))
      | inr also ↦ rw (other, also)
    ]
  ]

pub index_beq_iff {ℓ} :
    {A : Type ℓ} (index : A → ℕ) (injective : (a b : A) → index a ≡ index b → a ≡ b) (a b : A)
    → (nat_beq (index a) (index b) ≡ true) ↔ (a ≡ b)
index_beq_iff index injective a b =
    (λ h. injective a b ((nat_beq_iff _ _).0 h), λ e. (nat_beq_iff _ _).1 (ap index e))

-- The comparison of an enumeration, by the place of its members.
abbrev pub eq_by_index {ℓ} :
    {A : Type ℓ} (index : A → ℕ) → ((a b : A) → index a ≡ index b → a ≡ b) → Eq A
eq_by_index index injective = record {
  same_as = λ a b. nat_beq (index a) (index b);
  same_iff = λ a b. index_beq_iff index injective a b;
}
