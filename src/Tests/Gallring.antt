-- ===== src/Tests/Gallring.antt =====
-- The retention component on one case, from the queue to the report.
use kommunsign.Prelude.{
  false, true, String, string_eq, ℕ, String, ◌≡◌, refl, true, false, none, some, List, [], ◌∷◌, ok,
  string_eq, replicate,
}
use kommunsign.Prelude.Number.{whole, instant}
use kommunsign.Retention.Types.{
  delete_after_period, business_data, access_log, RetentionPolicy, RetentionSubject,
}
use kommunsign.Retention.Policy.{
  is_terminal, decide_retention, assert_policy_is_lawful, decide_closed, decide_at, add_days,
}
use kommunsign.Retention.Due.{IsDue, due_decision, disposal_sound}
use kommunsign.Retention.Report.{
  GallringTargetOutcome, check_outcomes, build_gallring_report, report_of,
}
use kommunsign.Retention.Report.Laws.{IsReportable}
use kommunsign.Retention.Executor.{
  GallringJob, queued, planned, executing, verified, reported, plan_gallring, GallringApprover,
  approve_gallring, recheck, begin_gallring_execution, address_all, verify_gallring_execution,
  complete_gallring, report_input,
}
use kommunsign.Retention.Executor.Plan.{all_targets}
use kommunsign.Retention.Executor.Verification.{IsCovered, verification_covers_plan}
use kommunsign.Retention.Executor.Lifecycle.{
  plans, approves, begins, here, next, IsAccounted, approved_job, Reach-IsAccounted,
}

-- What a decision computes with.
decisions : Unit {0}
unfolding decide_retention assert_policy_is_lawful decide_closed is_terminal decide_at add_days
decisions = tt

abbrev month : RetentionPolicy
month = record {
  policy_key = "standard";
  version = whole 1;
  retention_class = business_data;
  mode = delete_after_period;
  period_days = some (whole 30);
  active = true;
  instruction_reference = none;
}

abbrev log_policy : RetentionPolicy
log_policy = record month { retention_class = access_log; period_days = some (whole 1825) }

abbrev closed_case : RetentionSubject
closed_case = record {
  tenant_id = "t";
  case_id = "c";
  status = "completed";
  closed_at = some (instant 1000);
  legal_hold_active = false;
}

abbrev today : ℕ
today = 200000000000

month_due : decide_retention month closed_case today ≡ ok (due_decision month 1000)
unfolding decisions
month_due = refl

log_due : decide_retention log_policy closed_case today ≡ ok (due_decision log_policy 1000)
unfolding decisions
log_due = refl

disposal_sound_example :
    (due : IsDue month closed_case today) × (due_decision month 1000
      ≡ due_decision month due.closed)
disposal_sound_example = disposal_sound month closed_case today month_due (λ e. cc)

abbrev job : GallringJob
job = record {
  tenant_id = "t";
  job_id = "j";
  state = queued;
  policy_key = "standard";
  policy_version = whole 1;
  case_ids = "c" ∷ [];
  queued_decision = due_decision month 1000;
  queued_at = instant today;
  planned_targets = [];
  requested_by = "anna";
  approved_by = none;
  approved_at = none;
}

abbrev planned_job : GallringJob
planned_job = record job { state = planned; planned_targets = all_targets }

abbrev bo : GallringApprover
bo = record {
  actor_id = "bo";
  tenant_id = "t";
  has_retention_execute_permission = true;
  is_platform_staff = false;
}

abbrev ready_job : GallringJob
ready_job = approved_job planned_job bo (instant today)

abbrev running_job : GallringJob
running_job = record ready_job { state = executing }

abbrev done_job : GallringJob
done_job = record ready_job { state = verified }

abbrev outcome : String → GallringTargetOutcome
outcome target = record { target = target; deleted_count = whole 2; verified = true }

abbrev outcomes : List GallringTargetOutcome
outcomes =
    outcome "cache"
    ∷ outcome "derived_renders"
    ∷ outcome "document_versions"
    ∷ outcome "documents"
    ∷ outcome "evidence_packages"
    ∷ outcome "notifications"
    ∷ outcome "object_storage"
    ∷ outcome "search_index"
    ∷ outcome "signature_case"
    ∷ []

plan_run : plan_gallring job ("cache" ∷ []) ≡ ok planned_job
unfolding plan_gallring
plan_run = refl

approve_run : approve_gallring planned_job bo (instant today) ≡ ok ready_job
unfolding approve_gallring
approve_run = refl

recheck_run : recheck ready_job month today closed_case ≡ ok tt
unfolding recheck decisions
recheck_run = refl

begin_run : begin_gallring_execution ready_job month (closed_case ∷ []) today ≡ ok running_job
unfolding begin_gallring_execution recheck decisions
begin_run = refl

verify_run : verify_gallring_execution running_job outcomes ≡ ok done_job
unfolding verify_gallring_execution address_all
verify_run = refl

complete_run :
    complete_gallring done_job outcomes business_data (instant today)
    ≡ ok (record {
      job = record done_job { state = reported };
      report = report_of (report_input done_job "bo" outcomes business_data (instant today));
    })
unfolding complete_gallring build_gallring_report check_outcomes
complete_run = refl

Reach-IsAccounted_example : IsAccounted running_job
Reach-IsAccounted_example = Reach-IsAccounted {job = job} {job' = running_job} refl (
    next
      (next (next here (plans ("cache" ∷ []) plan_run)) (approves bo (instant today) approve_run))
      (begins month (closed_case ∷ []) today begin_run))

-- Two cases, and one of them handed over twice.
abbrev two_cases_job : GallringJob
two_cases_job = record ready_job { case_ids = "c" ∷ "d" ∷ [] }

two_cases_run :
    begin_gallring_execution two_cases_job month (replicate 2 closed_case) today
    ≡ ok (record two_cases_job { state = executing })
unfolding begin_gallring_execution recheck decisions
two_cases_run = refl

verification_covers_plan_example :
    (running_job.state ≡ executing)
    × IsCovered running_job.planned_targets outcomes
    × (done_job ≡ record running_job { state = verified })
verification_covers_plan_example = verification_covers_plan running_job outcomes verify_run

abbrev empty_report_input :
    IsReportable (report_input done_job "bo" [] business_data (instant today))
empty_report_input = record { some_case = refl; outcomes = tt; once = tt }
