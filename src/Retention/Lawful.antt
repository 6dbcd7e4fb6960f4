-- ===== src/Retention/Lawful.antt =====
-- Which policies `assertPolicyIsLawful` accepts.
use kommunsign.Prelude.{◌≤◌, ◌≡◌, ◌≢◌, ◌↔◌, ◌⊎◌, false, Option, none, some, arith, ok}
use kommunsign.Prelude.Text.{is_missing}
use kommunsign.Prelude.Number.{Number, whole, negative, other, to_ℕ, max_safe_integer}
use kommunsign.Retention.Types.{
  RetentionMode, retain_forever, archive_then_delete, delete_after_period, retain_for_period,
  legal_hold, business_data, access_log, RetentionPolicy,
}
use kommunsign.Retention.Policy.{
  assert_policy_is_lawful, period_of, access_log_minimum_retention_days,
}

-- A mode with a period has one, and the others have none.
abbrev pub PeriodFits : RetentionMode → Option Number → Type 0
PeriodFits mode none = (mode ≡ retain_forever) ⊎ (mode ≡ legal_hold)
PeriodFits mode (some (whole days)) =
    ((mode ≡ retain_for_period) ⊎ (mode ≡ delete_after_period) ⊎ (mode ≡ archive_then_delete))
    × (days ≤ max_safe_integer)
PeriodFits mode (some (negative _)) = ⊥
PeriodFits mode (some other) = ⊥

pub record IsLawful (policy : RetentionPolicy) : Type 0 where
  pub version_whole : policy.version ≡ whole (to_ℕ policy.version)
  pub version_positive : 1 ≤ to_ℕ policy.version
  pub version_safe : to_ℕ policy.version ≤ max_safe_integer
  pub period_fits : PeriodFits policy.mode policy.period_days
  pub logs_not_archived : policy.retention_class ≢ business_data → policy.mode ≢ archive_then_delete
  pub floor :
      policy.retention_class ≡ access_log
      → policy.period_days ≢ none
      → (access_log_minimum_retention_days ≤ period_of policy)
        ⊎ (is_missing policy.instruction_reference ≡ false)

to : (policy : RetentionPolicy) → assert_policy_is_lawful policy ≡ ok tt → IsLawful policy
unfolding assert_policy_is_lawful
to policy h = ground arith

from : (policy : RetentionPolicy) → IsLawful policy → assert_policy_is_lawful policy ≡ ok tt
unfolding assert_policy_is_lawful
from policy h = ground arith

-- Exactly the lawful policies are accepted.
pub lawful_iff :
    (policy : RetentionPolicy) → (assert_policy_is_lawful policy ≡ ok tt) ↔ IsLawful policy
lawful_iff policy = (to policy, from policy)
