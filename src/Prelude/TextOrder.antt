-- ===== src/Prelude/TextOrder.antt =====
-- The order of `Array.prototype.sort` without a comparator: by UTF-16 code units.
use Prim.Native.Nat.{ℕ, ◌+◌, ◌-◌, ◌/◌, ◌%◌}
use Prim.Native.String.{String}
use mathlib.Core.Path.{◌≡◌, refl}
use mathlib.Core.Logic.{◌↔◌}
use mathlib.Core.Bool.{Bool, true, false, ◌&&◌}
use mathlib.Core.List.{List, [], ◌∷◌, ◌++◌}
use native.Mathlib.Omega.{arith}
use kommunsign.Prelude.Tests.{ltb, nat_beq, if◌then◌else◌}
use kommunsign.Prelude.Equality.{Eq}
use kommunsign.Prelude.Text.{codes, codes_le}

-- A code point above the first plane is written as a pair of surrogates.
abbrev pub code_units : List ℕ → List ℕ
code_units [] = []
code_units (c ∷ s) =
    (if ltb c 0x10000
      then c ∷ []
      else (0xd800 + (c - 0x10000) / 0x400) ∷ (0xdc00 + (c - 0x10000) % 0x400) ∷ [])
    ++ code_units s

abbrev pub units : String → List ℕ
units s = code_units (codes s)

unfoldable pub text_le : String → String → Bool
text_le a b = codes_le (units a) (units b)

pub codes_le_refl : (s : List ℕ) → codes_le s s ≡ true
codes_le_refl [] = refl
codes_le_refl (c ∷ s) = ground (arith, codes_le_refl s)

pub codes_le_trans :
    (s t u : List ℕ) → codes_le s t ≡ true → codes_le t u ≡ true → codes_le s u ≡ true
codes_le_trans [] t u h k = refl
codes_le_trans (a ∷ s) [] u h k = cc
codes_le_trans (a ∷ s) (b ∷ t) [] h k = cc
codes_le_trans (a ∷ s) (b ∷ t) (c ∷ u) h k = ground (arith, codes_le_trans s t u)

pub codes_le-total : (s t : List ℕ) → codes_le s t ≡ false → codes_le t s ≡ true
codes_le-total [] t h = cc
codes_le-total (a ∷ s) [] h = refl
codes_le-total (a ∷ s) (b ∷ t) h = ground (arith, codes_le-total s t)

-- Two texts that are each at most the other are the same.
pub codes_le-antisym : (s t : List ℕ) → codes_le s t ≡ true → codes_le t s ≡ true → s ≡ t
codes_le-antisym [] [] h k = refl
codes_le-antisym [] (b ∷ t) h k = cc
codes_le-antisym (a ∷ s) [] h k = cc
codes_le-antisym (a ∷ s) (b ∷ t) h k = ground (arith, codes_le-antisym s t)

pub text_le_trans : (a b c : String) → text_le a b ≡ true → text_le b c ≡ true → text_le a c ≡ true
unfolding text_le
text_le_trans a b c = codes_le_trans (units a) (units b) (units c)

pub text_le-total : (a b : String) → text_le a b ≡ false → text_le b a ≡ true
unfolding text_le
text_le-total a b = codes_le-total (units a) (units b)

abbrev pub codes_beq : List ℕ → List ℕ → Bool
codes_beq [] [] = true
codes_beq [] (b ∷ t) = false
codes_beq (a ∷ s) [] = false
codes_beq (a ∷ s) (b ∷ t) = nat_beq a b && codes_beq s t

pub codes_beq_iff : (s t : List ℕ) → (codes_beq s t ≡ true) ↔ (s ≡ t)
codes_beq_iff [] [] = (λ h. refl, λ h. refl)
codes_beq_iff [] (b ∷ t) = (λ h. absurd (cc), λ h. absurd (cc))
codes_beq_iff (a ∷ s) [] = (λ h. absurd (cc), λ h. absurd (cc))
codes_beq_iff (a ∷ s) (b ∷ t) =
    let rest = codes_beq_iff s t in (λ h. ground arith, λ h. ground arith)

-- `===` on texts that are lists of code units.
instance abbrev pub codes_eq : Eq (List ℕ)
codes_eq = record { same_as = codes_beq; same_iff = codes_beq_iff }
