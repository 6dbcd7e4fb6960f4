-- ===== src/Retention/Policy.antt =====
-- packages/retention/src/index.ts: which policies are lawful, and what may happen to a case.
use kommunsign.Prelude.{
  ℕ, String, ◌+◌, ◌*◌, Bool, true, false, not, ◌&&◌, ◌||◌, Option, none, some, List, [], ◌∷◌,
  Result, ok, err, ◌>>=◌, ◌>>◌, throw_if, if◌then◌else◌, ltb, is_some, ◌==◌, includes, string_eq,
}
use kommunsign.Prelude.Text.{is_missing}
use kommunsign.Prelude.Number.{
  Number, whole, negative, other, is_safe_from, to_ℕ, IsoDateTime, unparsable, instant, is_after,
  ms_per_day, to_iso_string,
}
use kommunsign.Retention.Types.{
  RetentionMode, retain_forever, retain_for_period, archive_then_delete, delete_after_period,
  legal_hold, mode_eq, retention_modes, class_eq, security_log, access_log, retain,
  archive_then_delete_case, delete, RetentionReason, under_legal_hold, case_not_closed,
  policy_inactive, retained_forever, period_not_elapsed, minimum_retention_not_elapsed,
  due_for_deletion, due_for_archive_then_deletion, RetentionPolicyError, mode_invalid,
  version_invalid, period_required, period_forbidden, log_mode_invalid, below_pub_floor,
  anchor_invalid, time_range, RetentionPolicy, RetentionSubject, RetentionDecision,
}

-- 5 * 365
abbrev pub access_log_minimum_retention_days : ℕ
access_log_minimum_retention_days = 1825

abbrev pub terminal_statuses : List String
terminal_statuses = "completed" ∷ "declined" ∷ "expired" ∷ "cancelled" ∷ "failed" ∷ "archived" ∷ []

-- `TERMINAL_STATUSES.has(status)`
unfoldable pub is_terminal : String → Bool
is_terminal status = includes terminal_statuses status

abbrev pub needs_period : RetentionMode → Bool
needs_period mode =
    mode == retain_for_period || mode == delete_after_period || mode == archive_then_delete

-- A period that is present, a safe integer and at least 0.
abbrev pub has_period : Option Number → Bool
has_period none = false
has_period (some days) = is_safe_from 0 days

abbrev pub assert_period : RetentionPolicy → Result RetentionPolicyError (Unit {0})
assert_period policy =
    if needs_period policy.mode
    then throw_if (not (has_period policy.period_days)) period_required
    else throw_if (is_some policy.period_days) period_forbidden

-- `periodDays !== null && periodDays < floor`. Where this is asked, a period is a natural number.
abbrev pub is_below_floor : Option Number → Bool
is_below_floor none = false
is_below_floor (some (whole days)) = ltb days access_log_minimum_retention_days
is_below_floor (some (negative _)) = true
is_below_floor (some other) = false

unfoldable pub assert_policy_is_lawful : RetentionPolicy → Result RetentionPolicyError (Unit {0})
assert_policy_is_lawful policy = do
  throw_if (not (includes retention_modes policy.mode)) mode_invalid
  throw_if (not (is_safe_from 1 policy.version)) version_invalid
  assert_period policy
  throw_if
      ((policy.retention_class == access_log || policy.retention_class == security_log)
        && policy.mode == archive_then_delete)
      log_mode_invalid
  throw_if
      (policy.retention_class == access_log
        && is_below_floor policy.period_days
        && is_missing policy.instruction_reference)
      below_pub_floor

unfoldable pub add_days : IsoDateTime → ℕ → Result RetentionPolicyError IsoDateTime
add_days unparsable days = err anchor_invalid
add_days (instant base) days = elim (to_iso_string (base + days * ms_per_day)) [
  | none ↦ err time_range
  | some t ↦ ok t
]

abbrev pub keep : RetentionReason → RetentionDecision
keep reason = record { action = retain; reason = reason; eligible_at = none }

abbrev pub period_of : RetentionPolicy → ℕ
period_of policy = elim policy.period_days [ none ↦ 0 | some days ↦ to_ℕ days ]

-- The part of `decideRetention` behind the computation of `eligibleAt`.
unfoldable pub decide_at : RetentionPolicy → IsoDateTime → ℕ → RetentionDecision
decide_at policy eligible_at now =
    if is_after eligible_at now
    then record {
      action = retain;
      reason =
          if policy.mode == retain_for_period
          then minimum_retention_not_elapsed
          else period_not_elapsed;
      eligible_at = some eligible_at;
    }
    else if policy.mode == retain_for_period
    then record {
      action = retain;
      reason = minimum_retention_not_elapsed;
      eligible_at = some eligible_at;
    }
    else if policy.mode == archive_then_delete
    then record {
      action = archive_then_delete_case;
      reason = due_for_archive_then_deletion;
      eligible_at = some eligible_at;
    }
    else record { action = delete; reason = due_for_deletion; eligible_at = some eligible_at }

unfoldable pub decide_closed :
    RetentionPolicy
    → String
    → Option IsoDateTime
    → ℕ
    → Result RetentionPolicyError RetentionDecision
decide_closed policy status none now = ok (keep case_not_closed)
decide_closed policy status (some closed_at) now =
    if not (is_terminal status) then ok (keep case_not_closed) else do
      eligible_at ← add_days closed_at (period_of policy)
      ok (decide_at policy eligible_at now)

unfoldable pub decide_retention :
    RetentionPolicy → RetentionSubject → ℕ → Result RetentionPolicyError RetentionDecision
decide_retention policy subject now =
    assert_policy_is_lawful policy
    >> (if subject.legal_hold_active || policy.mode == legal_hold
        then ok (keep under_legal_hold)
        else if not policy.active
        then ok (keep policy_inactive)
        else if policy.mode == retain_forever
        then ok (keep retained_forever)
        else decide_closed policy subject.status subject.closed_at now)
