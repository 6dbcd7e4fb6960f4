-- ===== src/Retention/Due.antt =====
-- When a case may be deleted: the decision of `decideRetention` against an independent description.
use kommunsign.Prelude.{
  ℕ, String, ◌+◌, ◌*◌, ◌≤◌, ◌≡◌, refl, ◌≢◌, ◌⊎◌, true, false, Option, none, some, arith, sym, ap,
  ◌∙◌, >>-eq-ok, ok, ◌==◌, if◌then◌else◌,
}
use kommunsign.Prelude.Text.{is_missing}
use kommunsign.Prelude.Number.{IsoDateTime, unparsable, instant, ms_per_day, max_date}
use kommunsign.Retention.Types.{
  RetentionAction, archive_then_delete, delete_after_period, retain_for_period, access_log,
  due_for_deletion, due_for_archive_then_deletion, mode_eq, retain, delete,
  archive_then_delete_case, RetentionPolicy, RetentionSubject, RetentionDecision,
}
use kommunsign.Retention.Policy.{
  assert_policy_is_lawful, decide_at, decide_closed, decide_retention, add_days, is_terminal,
  period_of, access_log_minimum_retention_days,
}

-- Why a case may be deleted: every guard of the law, the policy and the clock.
pub record IsDue (policy : RetentionPolicy) (subject : RetentionSubject) (now : ℕ) : Type 0 where
  pub no_hold : subject.legal_hold_active ≡ false
  pub active : policy.active ≡ true
  pub disposes : (policy.mode ≡ delete_after_period) ⊎ (policy.mode ≡ archive_then_delete)
  pub ended : is_terminal subject.status ≡ true
  pub closed : ℕ
  pub closed_then : subject.closed_at ≡ some (instant closed)
  pub elapsed : closed + period_of policy * ms_per_day ≤ now

abbrev pub action_for : RetentionPolicy → RetentionAction
action_for policy = if policy.mode == archive_then_delete then archive_then_delete_case else delete

-- The decision for a due case.
abbrev pub due_decision : RetentionPolicy → ℕ → RetentionDecision
due_decision policy closed = record {
  action = action_for policy;
  reason =
      if policy.mode == archive_then_delete
      then due_for_archive_then_deletion
      else due_for_deletion;
  eligible_at = some (instant (closed + period_of policy * ms_per_day));
}

decide_closed_sound :
    (policy : RetentionPolicy) (status : String) (closed_at : Option IsoDateTime) (now : ℕ)
    {d : RetentionDecision}
    → decide_closed policy status closed_at now ≡ ok d
    → d.action ≢ retain
    → (closed : ℕ) × (closed_at ≡ some (instant closed))
      × (is_terminal status ≡ true)
      × (closed + period_of policy * ms_per_day ≤ now)
      × (policy.mode ≢ retain_for_period)
      × (d ≡ due_decision policy closed)
unfolding decide_closed decide_at add_days
decide_closed_sound policy status none now h a = absurd (ground arith)
decide_closed_sound policy status (some unparsable) now h a = absurd (ground arith)
decide_closed_sound policy status (some (instant closed)) now h a =
    (closed, refl, ground arith, ground arith, ground arith, ground arith)

-- A disposal happens only to a due case, by the action of the policy's mode: a case under legal
-- hold, still running, kept by its policy or before its day is never deleted, and the decision
-- carries the day from which it was due.
pub disposal_sound :
    (policy : RetentionPolicy) (subject : RetentionSubject) (now : ℕ) {d : RetentionDecision}
    → decide_retention policy subject now ≡ ok d
    → d.action ≢ retain
    → (due : IsDue policy subject now) × (d ≡ due_decision policy due.closed)
unfolding decide_retention
disposal_sound policy subject now {d} h a =
    let shut : decide_closed policy subject.status subject.closed_at now ≡ ok d = ground arith in
    let (closed, anchor, ended, elapsed, automatic, same) =
      decide_closed_sound policy subject.status subject.closed_at now shut a in
    (
      record {
        no_hold = ground arith;
        active = ground arith;
        disposes = ground arith;
        ended = ended;
        closed = closed;
        closed_then = anchor;
        elapsed = elapsed;
      },
      same,
    )

decide_closed_complete :
    (policy : RetentionPolicy) (status : String) (closed now : ℕ)
    → now ≤ max_date
    → is_terminal status ≡ true
    → closed + period_of policy * ms_per_day ≤ now
    → policy.mode ≢ retain_for_period
    → decide_closed policy status (some (instant closed)) now ≡ ok (due_decision policy closed)
unfolding decide_closed decide_at add_days
decide_closed_complete policy status closed now m ended elapsed automatic = ground arith

-- Under a lawful policy every due case is disposed of, with the reason and the day of its mode.
pub disposal_complete :
    (policy : RetentionPolicy) (subject : RetentionSubject) (now : ℕ)
    → now ≤ max_date
    → assert_policy_is_lawful policy ≡ ok tt
    → (due : IsDue policy subject now)
    → decide_retention policy subject now ≡ ok (due_decision policy due.closed)
unfolding decide_retention
disposal_complete policy subject now m lawful due =
    let shut =
      decide_closed_complete policy subject.status due.closed now m due.ended due.elapsed
        (ground arith) in
    ground (arith, shut, due.closed_then)

-- A lawful policy for an access log keeps to the floor, unless an instruction is named.
lawful_floor :
    (policy : RetentionPolicy)
    → assert_policy_is_lawful policy ≡ ok tt
    → policy.retention_class ≡ access_log
    → (policy.mode ≡ delete_after_period) ⊎ (policy.mode ≡ archive_then_delete)
    → is_missing policy.instruction_reference ≡ true
    → access_log_minimum_retention_days ≤ period_of policy
unfolding assert_policy_is_lawful
lawful_floor policy h c m i = ground arith

decided-lawful :
    (policy : RetentionPolicy) (subject : RetentionSubject) (now : ℕ) {d : RetentionDecision}
    → decide_retention policy subject now ≡ ok d
    → assert_policy_is_lawful policy ≡ ok tt
unfolding decide_retention
decided-lawful policy subject now h = (>>-eq-ok (assert_policy_is_lawful policy) _ h).0

-- A case that is due stays due: at any later time the decision is the same.
pub due_stays_due :
    (policy : RetentionPolicy) (subject : RetentionSubject) (now later : ℕ) {d : RetentionDecision}
    → decide_retention policy subject now ≡ ok d
    → d.action ≢ retain
    → now ≤ later
    → later ≤ max_date
    → decide_retention policy subject later ≡ ok d
due_stays_due policy subject now later h a le m =
    let (due, same) = disposal_sound policy subject now h a in
    disposal_complete policy subject later m (decided-lawful policy subject now h) (record {
      no_hold = due.no_hold;
      active = due.active;
      disposes = due.disposes;
      ended = due.ended;
      closed = due.closed;
      closed_then = due.closed_then;
      elapsed = omega (arith, due.elapsed);
    })
    ∙ ap ok (sym same)

-- An access log that is deleted without a written instruction was closed at least five years ago.
pub access_log_floor :
    (policy : RetentionPolicy) (subject : RetentionSubject) (now : ℕ) {d : RetentionDecision}
    → decide_retention policy subject now ≡ ok d
    → d.action ≢ retain
    → policy.retention_class ≡ access_log
    → is_missing policy.instruction_reference ≡ true
    → (closed : ℕ) × (subject.closed_at ≡ some (instant closed))
      × (closed + access_log_minimum_retention_days * ms_per_day ≤ now)
access_log_floor policy subject now h a c missing =
    let (due, same) = disposal_sound policy subject now h a in
    let lawful = decided-lawful policy subject now h in
    (
      due.closed,
      due.closed_then,
      omega (arith, due.elapsed, lawful_floor policy lawful c due.disposes missing),
    )
