-- ===== src/Readiness.antt =====
-- packages/readiness/src/index.ts: whether an organisation may go live.
pub mod Laws
use kommunsign.Prelude.{
  ℕ, String, ◌≡◌, Bool, not, ◌&&◌, List, arith, Result, ◌>>=◌, ◌>>◌, throw_if, ◌==◌, ◌!=◌, Eq,
  eq_by_index, nat_eq, filter, length,
}
use kommunsign.Prelude.Number.{IsoDateTime}

pub data ReadinessSeverity : Type 0 where
  blocking warning : ReadinessSeverity

abbrev pub severity_index : ReadinessSeverity → ℕ
severity_index blocking = 0
severity_index warning = 1

pub severity_index-injective :
    (a b : ReadinessSeverity) → severity_index a ≡ severity_index b → a ≡ b
severity_index-injective a b h = ground arith

instance abbrev pub severity_eq : Eq ReadinessSeverity
severity_eq = eq_by_index severity_index severity_index-injective

pub data Environment : Type 0 where
  test production : Environment

abbrev pub environment_index : Environment → ℕ
environment_index test = 0
environment_index production = 1

pub environment_index-injective :
    (a b : Environment) → environment_index a ≡ environment_index b → a ≡ b
environment_index-injective a b h = ground arith

instance abbrev pub environment_eq : Eq Environment
environment_eq = eq_by_index environment_index environment_index-injective

-- The evidence of a check, which no function reads, is left out.
pub record ReadinessCheck : Type 0 where
  pub code : String
  pub passed : Bool
  pub severity : ReadinessSeverity
  pub checked_at : IsoDateTime

pub record ReadinessResult : Type 0 where
  pub ready : Bool
  pub environment : Environment
  pub blocking_checks : List ReadinessCheck
  pub warning_checks : List ReadinessCheck
  pub completed_checks : List ReadinessCheck

pub data ReadinessError : Type 0 where
  production_readiness_required tenant_not_ready_for_activation : ReadinessError

abbrev pub is_blocking : ReadinessCheck → Bool
is_blocking check = not check.passed && check.severity == blocking

abbrev pub is_warning : ReadinessCheck → Bool
is_warning check = not check.passed && check.severity == warning

abbrev pub is_completed : ReadinessCheck → Bool
is_completed check = check.passed

unfoldable pub evaluate_readiness : Environment → List ReadinessCheck → ReadinessResult
evaluate_readiness environment checks =
    let blocking_checks = filter is_blocking checks in
    record {
      ready = length blocking_checks == 0;
      environment = environment;
      blocking_checks = blocking_checks;
      warning_checks = filter is_warning checks;
      completed_checks = filter is_completed checks;
    }

unfoldable pub assert_ready_for_activation : ReadinessResult → Result ReadinessError (Unit {0})
assert_ready_for_activation result = do
  throw_if (result.environment != production) production_readiness_required
  throw_if (not result.ready) tenant_not_ready_for_activation
