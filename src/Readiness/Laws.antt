-- ===== src/Readiness/Laws.antt =====
-- What an evaluation of the checks of readiness says.
use kommunsign.Prelude.{
  ◌+◌, ◌≡◌, ◌↔◌, refl, true, ◌⊎◌, List, [], ◌∷◌, arith, ok, length, filter, All, nat_eq,
}
use kommunsign.Readiness.{
  Environment, production, environment_eq, warning, severity_eq, ReadinessCheck, is_blocking,
  is_warning, is_completed, evaluate_readiness, assert_ready_for_activation,
}

-- No check of the list stands in the way.
abbrev pub IsClear : List ReadinessCheck → Type 0
IsClear checks = All (λ c. (c.passed ≡ true) ⊎ (c.severity ≡ warning)) checks

counted :
    (checks : List ReadinessCheck)
    → length (filter is_blocking checks)
        + (length (filter is_warning checks) + length (filter is_completed checks))
      ≡ length checks
counted [] = refl
counted (c ∷ cs) = ground (arith, counted cs)

IsClear-none :
    (checks : List ReadinessCheck) → length (filter is_blocking checks) ≡ 0 → IsClear checks
IsClear-none [] h = tt
IsClear-none (c ∷ cs) h = (ground (arith, h), IsClear-none cs (ground (arith, h)))

none_blocking :
    (checks : List ReadinessCheck) → IsClear checks → length (filter is_blocking checks) ≡ 0
none_blocking [] h = refl
none_blocking (c ∷ cs) h = ground (arith, h.0, none_blocking cs h.1)

-- The three lists of a result account for every check once, and an activation is let pass exactly
-- in production and when every check has passed or only warns.
pub activation_iff :
    (environment : Environment) (checks : List ReadinessCheck)
    → let result = evaluate_readiness environment checks in
      ((assert_ready_for_activation result ≡ ok tt) ↔ ((environment ≡ production) × IsClear checks))
      × (length result.blocking_checks
            + (length result.warning_checks + length result.completed_checks)
          ≡ length checks)
unfolding evaluate_readiness assert_ready_for_activation
activation_iff environment checks = (
  (
    λ h. (ground (arith, h), IsClear-none checks (ground (arith, h))),
    λ c. ground (arith, c.0, none_blocking checks c.1),
  ),
  counted checks,
)
