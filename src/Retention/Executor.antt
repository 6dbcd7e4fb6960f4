-- ===== src/Retention/Executor.antt =====
-- packages/retention/src/executor.ts: the life of a gallring job. Each operation returns the new
-- job, or the error that it throws with the job left as it was.
pub mod Plan
pub mod Verification
pub mod Recheck
pub mod Lifecycle
use kommunsign.Prelude.{
  ℕ, String, ◌≡◌, Bool, not, Option, none, some, List, [], ◌∷◌, ◌++◌, arith, Result, ok, err, ◌>>=◌,
  ◌>>◌, throw_if, map_err, for_each, ◌==◌, ◌!=◌, Eq, eq_by_index, nat_eq, string_eq, includes,
  filter, length, is_empty, unique,
}
use kommunsign.Prelude.Sort.{sort}
use kommunsign.Prelude.Text.{codes, codes_le}
use kommunsign.Prelude.Number.{Number, IsoDateTime}
use kommunsign.Retention.Types.{
  RetentionClass, RetentionPolicyError, target_unknown, RetentionPolicy, RetentionSubject,
  RetentionDecision, retain, action_eq,
}
use kommunsign.Retention.Policy.{decide_retention}
use kommunsign.Retention.Report.{
  GallringTarget, gallring_targets, GallringTargetOutcome, GallringReport, GallringReportInput,
  build_gallring_report, targets_of, unverified_of,
}

pub data GallringState : Type 0 where
  queued planned approved executing verified reported abandoned : GallringState

abbrev pub state_index : GallringState → ℕ
state_index queued = 0
state_index planned = 1
state_index approved = 2
state_index executing = 3
state_index verified = 4
state_index reported = 5
state_index abandoned = 6

pub state_index-injective : (a b : GallringState) → state_index a ≡ state_index b → a ≡ b
state_index-injective a b h = ground arith

instance abbrev pub state_eq : Eq GallringState
state_eq = eq_by_index state_index state_index-injective

-- The codes of GallringExecutionError, and the errors of the decision layer.
pub data GallringError : Type 0 where
  state_invalid decision_stale approval_required approver_not_permitted : GallringError
  self_approval target_not_planned outcome_duplicate target_not_executed : GallringError
  not_verified tenant_mismatch : GallringError
  policy_error : RetentionPolicyError → GallringError

-- MANDATORY_CASE_TARGETS
abbrev pub mandatory_case_targets : List GallringTarget
mandatory_case_targets =
    "signature_case" ∷ "documents" ∷ "document_versions" ∷ "object_storage" ∷ "evidence_packages"
    ∷ "derived_renders" ∷ "search_index" ∷ "cache" ∷ "notifications" ∷ []

pub record GallringJob : Type 0 where
  pub tenant_id : String
  pub job_id : String
  pub state : GallringState
  pub policy_key : String
  pub policy_version : Number
  pub case_ids : List String
  pub queued_decision : RetentionDecision
  pub queued_at : IsoDateTime
  pub planned_targets : List GallringTarget
  pub requested_by : String
  pub approved_by : Option String
  pub approved_at : Option IsoDateTime

abbrev pub assert_state : GallringJob → GallringState → Result GallringError (Unit {0})
assert_state job expected = throw_if (job.state != expected) state_invalid

pub record DueCase : Type 0 where
  pub subject : RetentionSubject
  pub decision : RetentionDecision

-- `subjects.map(decide)`, which throws what a decision throws.
unfoldable pub decide_all :
    RetentionPolicy → List RetentionSubject → ℕ → Result RetentionPolicyError (List DueCase)
decide_all policy [] now = ok []
decide_all policy (subject ∷ subjects) now = do
  decision ← decide_retention policy subject now
  entries ← decide_all policy subjects now
  ok (record { subject = subject; decision = decision } ∷ entries)

unfoldable pub select_due_cases :
    RetentionPolicy → List RetentionSubject → ℕ → Result RetentionPolicyError (List DueCase)
unfolding decide_all
select_due_cases policy subjects now = do
  entries ← decide_all policy subjects now
  ok (filter (λ (entry : DueCase). entry.decision.action != retain) entries)

abbrev pub name_le : GallringTarget → GallringTarget → Bool
name_le a b = codes_le (codes a) (codes b)

unfoldable pub plan_gallring : GallringJob → List GallringTarget → Result GallringError GallringJob
plan_gallring job additional = do
  assert_state job queued
  for_each additional
      (λ target. throw_if (not (includes gallring_targets target)) (policy_error target_unknown))
  ok (record job {
    state = planned;
    planned_targets = sort name_le (unique (mandatory_case_targets ++ additional));
  })

pub record GallringApprover : Type 0 where
  pub actor_id : String
  pub tenant_id : String
  pub has_retention_execute_permission : Bool
  pub is_platform_staff : Bool

unfoldable pub approve_gallring :
    GallringJob → GallringApprover → IsoDateTime → Result GallringError GallringJob
approve_gallring job approver at = do
  assert_state job planned
  throw_if (approver.tenant_id != job.tenant_id) tenant_mismatch
  throw_if approver.is_platform_staff approver_not_permitted
  throw_if (not approver.has_retention_execute_permission) approver_not_permitted
  throw_if (approver.actor_id == job.requested_by) self_approval
  ok (record job { state = approved; approved_by = some approver.actor_id; approved_at = some at })

-- The body of the loop of `beginGallringExecution`.
unfoldable pub recheck :
    GallringJob → RetentionPolicy → ℕ → RetentionSubject → Result GallringError (Unit {0})
recheck job policy now subject = do
  throw_if (subject.tenant_id != job.tenant_id) tenant_mismatch
  throw_if (not (includes job.case_ids subject.case_id)) decision_stale
  current ← map_err policy_error (decide_retention policy subject now)
  throw_if (current.action == retain) decision_stale
  throw_if (current.action != job.queued_decision.action) decision_stale

unfoldable pub begin_gallring_execution :
    GallringJob → RetentionPolicy → List RetentionSubject → ℕ → Result GallringError GallringJob
begin_gallring_execution job policy subjects now = do
  assert_state job approved
  throw_if (length subjects != length job.case_ids) decision_stale
  for_each subjects (recheck job policy now)
  ok (record job { state = executing })

-- The loop that collects the targets addressed.
unfoldable pub address_all :
    List GallringTarget → List GallringTarget → Result GallringError (List GallringTarget)
address_all addressed [] = ok addressed
address_all addressed (target ∷ targets) = do
  throw_if (includes addressed target) outcome_duplicate
  address_all (target ∷ addressed) targets

unfoldable pub verify_gallring_execution :
    GallringJob → List GallringTargetOutcome → Result GallringError GallringJob
verify_gallring_execution job outcomes = do
  assert_state job executing
  addressed ← address_all [] (targets_of outcomes)
  throw_if (not (is_empty (filter (λ t. not (includes addressed t)) job.planned_targets)))
      target_not_executed
  throw_if
      (not (is_empty (filter (λ t. not (includes job.planned_targets t)) (targets_of outcomes))))
      target_not_planned
  throw_if (not (is_empty (unverified_of outcomes))) not_verified
  ok (record job { state = verified })

pub record GallringCompletion : Type 0 where
  pub job : GallringJob
  pub report : GallringReport

-- The input of the report. `executedBy` is the approver.
abbrev pub report_input :
    GallringJob
    → String
    → List GallringTargetOutcome
    → RetentionClass
    → IsoDateTime
    → GallringReportInput
report_input job approver outcomes retention_class executed_at = record {
  tenant_id = job.tenant_id;
  job_id = job.job_id;
  policy_key = job.policy_key;
  policy_version = job.policy_version;
  retention_class = retention_class;
  executed_by = approver;
  executed_at = executed_at;
  case_ids = job.case_ids;
  outcomes = outcomes;
}

unfoldable pub complete_approved :
    GallringJob
    → Option String
    → List GallringTargetOutcome
    → RetentionClass
    → IsoDateTime
    → Result GallringError GallringCompletion
complete_approved job none outcomes retention_class executed_at = err approval_required
complete_approved job (some approver) outcomes retention_class executed_at = do
  report ←
      map_err policy_error
        (build_gallring_report (report_input job approver outcomes retention_class executed_at))
  throw_if (not report.complete) not_verified
  ok (record { job = record job { state = reported }; report = report })

unfoldable pub complete_gallring :
    GallringJob
    → List GallringTargetOutcome
    → RetentionClass
    → IsoDateTime
    → Result GallringError GallringCompletion
unfolding complete_approved
complete_gallring job outcomes retention_class executed_at =
    assert_state job verified
    >> complete_approved job job.approved_by outcomes retention_class executed_at

-- The reason is not kept.
unfoldable pub abandon_gallring : GallringJob → String → Result GallringError GallringJob
abandon_gallring job reason = do
  throw_if (job.state == reported) state_invalid
  ok (record job { state = abandoned })
