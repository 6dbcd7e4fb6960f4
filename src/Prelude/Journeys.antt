-- ===== src/Prelude/Journeys.antt =====
-- Ways through a table of transitions, with the states that are entered.
use mathlib.Core.Path.{◌≡◌, refl, sym, ◌∙◌}
use mathlib.Core.Logic.{◌⊎◌, inl, inr}
use mathlib.Core.Bool.{Bool, true, false}
use mathlib.Core.List.{List, [], ◌∷◌}
use native.Mathlib.Omega.{arith}
use kommunsign.Prelude.Equality.{Eq, ==-self}
use kommunsign.Prelude.Lists.{includes}

pub data Journey {S : Type 0} (Move : S → S → Type 0) (s : S) : S → List S → Type 0 where
  here : Journey Move s s []
  next :
      {t u : S} {visited : List S}
      → Journey Move s t visited
      → Move t u
      → Journey Move s u (u ∷ visited)

module _ {S : Type 0} {Move : S → S → Type 0} where
  -- A move ahead of a journey.
  pub prepend :
      {s t u : S} {visited : List S}
      → Move s t
      → Journey Move t u visited
      → (all : List S) × Journey Move s u all
  prepend m here = (_, next here m)
  prepend m (next j m') = let (all, j') = prepend m j in (_, next j' m')

  -- What every move keeps, a journey keeps.
  pub journey_keeps :
      (P : S → Bool)
      → ((s t : S) → Move s t → P s ≡ true → P t ≡ true)
      → {s t : S} {visited : List S} → Journey Move s t visited
      → P s ≡ true
      → P t ≡ true
  journey_keeps P kept here p = p
  journey_keeps P kept (next {t = t} {u = u} j m) p = kept t u m (journey_keeps P kept j p)

module _ {S : Type 0} ⦃e : Eq S⦄ {Move : S → S → Type 0} where
  -- States that can only be entered through a gate are reached only by passing the gate.
  pub gate :
      (P : S → Bool) (g : S)
      → ((s t : S) → Move s t → P t ≡ true → (t ≡ g) ⊎ (P s ≡ true))
      → {s t : S} {visited : List S} → Journey Move s t visited
      → P s ≡ false
      → P t ≡ true
      → includes visited g ≡ true
  gate P g rule here p q = absurd (false-true (sym p ∙ q))
    where
      false-true : false ≡ true → ⊥
      false-true h = cc
  gate P g rule (next {t = t} {u = u} j m) p q = elim (rule t u m q) [
    | inl same ↦ rw (same, ==-self g) refl
    | inr before ↦ ground (arith, gate P g rule j p before)
  ]
