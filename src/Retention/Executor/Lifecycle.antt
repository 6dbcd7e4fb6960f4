-- ===== src/Retention/Executor/Lifecycle.antt =====
-- The life of a gallring job: what holds in each state, however the job came there.
use kommunsign.Prelude.{
  ℕ, String, ◌≡◌, ◌≢◌, ◌↔◌, refl, sym, ap, ◌∙◌, inl, inr, Bool, true, false, Option, none, some,
  List, [], arith, ok, string_eq, >>-eq-ok, eq_iff, Result-cases,
}
use kommunsign.Prelude.Number.{IsoDateTime}
use kommunsign.Retention.Types.{RetentionClass, RetentionPolicy, RetentionSubject}
use kommunsign.Retention.Report.{
  GallringTarget, GallringTargetOutcome, build_gallring_report, report_of, unverified_of,
}
use kommunsign.Retention.Report.Laws.{IsReportable, report_checked, report_built}
use kommunsign.Retention.Executor.{
  GallringState, queued, planned, approved, executing, verified, reported, abandoned, GallringJob,
  plan_gallring, GallringApprover, approve_gallring, begin_gallring_execution,
  verify_gallring_execution, GallringCompletion, complete_approved, complete_gallring, report_input,
  abandon_gallring, assert_state,
}
use kommunsign.Retention.Executor.Plan.{all_targets, plan_covers_all}
use kommunsign.Retention.Executor.Recheck.{execution_rechecks}
use kommunsign.Retention.Executor.Verification.{verification_covers_plan}

-- One successful operation.
pub data Step : GallringJob → GallringJob → Type 0 where
  plans :
      {job job' : GallringJob} (additional : List GallringTarget)
      → plan_gallring job additional ≡ ok job'
      → Step job job'
  approves :
      {job job' : GallringJob} (approver : GallringApprover) (at : IsoDateTime)
      → approve_gallring job approver at ≡ ok job'
      → Step job job'
  begins :
      {job job' : GallringJob} (policy : RetentionPolicy) (subjects : List RetentionSubject)
      (now : ℕ)
      → begin_gallring_execution job policy subjects now ≡ ok job'
      → Step job job'
  verifies :
      {job job' : GallringJob} (outcomes : List GallringTargetOutcome)
      → verify_gallring_execution job outcomes ≡ ok job'
      → Step job job'
  completes :
      {job : GallringJob} {done : GallringCompletion} (outcomes : List GallringTargetOutcome)
      (retention_class : RetentionClass) (at : IsoDateTime)
      → complete_gallring job outcomes retention_class at ≡ ok done
      → Step job done.job
  abandons :
      {job job' : GallringJob} (reason : String)
      → abandon_gallring job reason ≡ ok job'
      → Step job job'

pub data Reach (job : GallringJob) : GallringJob → Type 0 where
  here : Reach job job
  next : {j k : GallringJob} → Reach job j → Step j k → Reach job k

abbrev pub is_planned : GallringState → Bool
is_planned queued = false
is_planned abandoned = false
is_planned _ = true

abbrev pub is_authorised : GallringState → Bool
is_authorised queued = false
is_authorised planned = false
is_authorised abandoned = false
is_authorised _ = true

-- Somebody other than the requester has approved the job.
pub record IsApproved (job : GallringJob) : Type 0 where
  pub approver : String
  pub recorded : job.approved_by ≡ some approver
  pub other_person : approver ≢ job.requested_by

pub record IsAccounted (job : GallringJob) : Type 0 where
  pub whole_plan : is_planned job.state ≡ true → job.planned_targets ≡ all_targets
  pub authorised : is_authorised job.state ≡ true → IsApproved job

-- What `approveGallring` requires of the approver.
pub record MayApprove (job : GallringJob) (approver : GallringApprover) : Type 0 where
  pub same_tenant : approver.tenant_id ≡ job.tenant_id
  pub customer : approver.is_platform_staff ≡ false
  pub permitted : approver.has_retention_execute_permission ≡ true
  pub other_person : approver.actor_id ≢ job.requested_by

-- The job after its approval.
abbrev pub approved_job : GallringJob → GallringApprover → IsoDateTime → GallringJob
approved_job job approver at = record job {
  state = approved;
  approved_by = some approver.actor_id;
  approved_at = some at;
}

approval_sound :
    (job : GallringJob) (approver : GallringApprover) (at : IsoDateTime) {job' : GallringJob}
    → approve_gallring job approver at ≡ ok job'
    → (job.state ≡ planned) × MayApprove job approver × (job' ≡ approved_job job approver at)
unfolding approve_gallring
approval_sound job approver at h = (
  ground arith,
  record {
    same_tenant = ground (arith, eq_iff approver.tenant_id job.tenant_id);
    customer = ground arith;
    permitted = ground arith;
    other_person = ground (arith, eq_iff approver.actor_id job.requested_by);
  },
  ground arith,
)

approval_complete :
    (job : GallringJob) (approver : GallringApprover) (at : IsoDateTime)
    → job.state ≡ planned
    → MayApprove job approver
    → approve_gallring job approver at ≡ ok (approved_job job approver at)
unfolding approve_gallring
approval_complete job approver at p m =
    ground
      (arith, eq_iff approver.tenant_id job.tenant_id, eq_iff approver.actor_id job.requested_by)

-- An approval succeeds exactly for a planned job and an approver of its tenant who is not platform
-- staff, holds the permission and did not ask for the job; it records the approver and the time and
-- leaves all else of the job as it was.
pub approval_iff :
    (job job' : GallringJob) (approver : GallringApprover) (at : IsoDateTime)
    → (approve_gallring job approver at ≡ ok job')
      ↔ ((job.state ≡ planned) × MayApprove job approver × (job' ≡ approved_job job approver at))
approval_iff job job' approver at = (
  approval_sound job approver at,
  λ h. approval_complete job approver at h.0 h.1 ∙ ap ok (sym h.2),
)

approved_completion :
    (job : GallringJob) (approved_by : Option String) (outcomes : List GallringTargetOutcome)
    (retention_class : RetentionClass) (at : IsoDateTime) {done : GallringCompletion}
    → complete_approved job approved_by outcomes retention_class at ≡ ok done
    → (approver : String) × (approved_by ≡ some approver)
      × (done.job ≡ record job { state = reported })
      × IsReportable (report_input job approver outcomes retention_class at)
      × (done.report ≡ report_of (report_input job approver outcomes retention_class at))
      × (done.report.complete ≡ true)
unfolding complete_approved
approved_completion job none outcomes retention_class at h = absurd (ground arith)
approved_completion job (some approver) outcomes retention_class at h =
    elim (Result-cases
      (build_gallring_report (report_input job approver outcomes retention_class at))) [
        | inl (report, built) ↦
            let (reportable, same) = report_checked _ built in
            (approver, refl, ground arith, reportable, ground (arith, same), ground arith)
        | inr (e, failed) ↦ absurd (ground arith)
      ]

-- A job is closed only from the verified state and with a recorded approver, whom the report names
-- as the one who executed it; the report is complete, and made of the outcomes that are handed over.
pub completion_sound :
    (job : GallringJob) (outcomes : List GallringTargetOutcome) (retention_class : RetentionClass)
    (at : IsoDateTime) {done : GallringCompletion}
    → complete_gallring job outcomes retention_class at ≡ ok done
    → (job.state ≡ verified)
      × ((approver : String) × (job.approved_by ≡ some approver)
          × (done.job ≡ record job { state = reported })
          × IsReportable (report_input job approver outcomes retention_class at)
          × (done.report ≡ report_of (report_input job approver outcomes retention_class at))
          × (done.report.complete ≡ true))
unfolding complete_gallring
completion_sound job outcomes retention_class at h =
    let (ready, h') = >>-eq-ok (assert_state job verified) _ h in
    (ground (arith, ready), approved_completion job job.approved_by outcomes retention_class at h')

-- The plan is not asked for at this point: a verified and approved job is closed with a complete
-- report for any reportable outcomes that are all marked verified, those of no target included.
pub completion_ignores_plan :
    (job : GallringJob) (approver : String) (outcomes : List GallringTargetOutcome)
    (retention_class : RetentionClass) (at : IsoDateTime)
    → job.state ≡ verified
    → job.approved_by ≡ some approver
    → IsReportable (report_input job approver outcomes retention_class at)
    → unverified_of outcomes ≡ []
    → complete_gallring job outcomes retention_class at
      ≡ ok (record {
        job = record job { state = reported };
        report = report_of (report_input job approver outcomes retention_class at);
      })
unfolding complete_gallring complete_approved
completion_ignores_plan job approver outcomes retention_class at ready by reportable all = rw by (
    ground
      (arith, report_built (report_input job approver outcomes retention_class at) reportable, all))

carry :
    (job : GallringJob) (state : GallringState)
    → is_planned job.state ≡ true
    → is_authorised job.state ≡ true
    → IsAccounted job
    → IsAccounted (record job { state = state })
carry job state p q a =
    let by = a.authorised q in
    record {
      whole_plan = λ _. a.whole_plan p;
      authorised = λ _. record {
        approver = by.approver;
        recorded = by.recorded;
        other_person = by.other_person;
      };
    }

abandon_sound :
    (job : GallringJob) (reason : String) {job' : GallringJob}
    → abandon_gallring job reason ≡ ok job'
    → (job.state ≢ reported) × (job' ≡ record job { state = abandoned })
unfolding abandon_gallring
abandon_sound job reason h = (ground arith, ground arith)

Step-IsAccounted : {job job' : GallringJob} → Step job job' → IsAccounted job → IsAccounted job'
Step-IsAccounted {job} (plans additional h) a =
    let (s, same) = plan_covers_all job additional h in
    rw same (record { whole_plan = λ _. refl; authorised = λ q. cc })
Step-IsAccounted {job} (approves approver at h) a =
    let (s, m, same) = approval_sound job approver at h in
    rw same (record {
      whole_plan = λ _. a.whole_plan (rw s refl);
      authorised = λ _. record {
        approver = approver.actor_id;
        recorded = refl;
        other_person = m.other_person;
      };
    })
Step-IsAccounted {job} (begins policy subjects now h) a =
    let (s, many, checked, same) = execution_rechecks job policy subjects now h in
    rw same (carry job executing (rw s refl) (rw s refl) a)
Step-IsAccounted {job} (verifies outcomes h) a =
    let (s, covered, same) = verification_covers_plan job outcomes h in
    rw same (carry job verified (rw s refl) (rw s refl) a)
Step-IsAccounted {job} (completes outcomes retention_class at h) a =
    let (s, closed) = completion_sound job outcomes retention_class at h in
    rw (closed.2) (carry job reported (rw s refl) (rw s refl) a)
Step-IsAccounted {job} (abandons reason h) a =
    rw ((abandon_sound job reason h).1) (record { whole_plan = λ q. cc; authorised = λ q. cc })

-- Whatever the operations and their order, from a queued job on: a job that is planned and not
-- abandoned has all nine targets in its plan, and from its approval on it carries the name of an
-- approver who is not the person that asked for it.
pub Reach-IsAccounted :
    {job job' : GallringJob} → job.state ≡ queued → Reach job job' → IsAccounted job'
Reach-IsAccounted start here = record {
  whole_plan = λ q. ground (arith, start);
  authorised = λ q. absurd (ground (arith, start));
}
Reach-IsAccounted start (next r s) = Step-IsAccounted s (Reach-IsAccounted start r)

-- A reported job is final.
pub reported_final : {job job' : GallringJob} → job.state ≡ reported → Step job job' → ⊥
reported_final {job} e (plans additional h) =
    ground (arith, e, (plan_covers_all job additional h).0)
reported_final {job} e (approves approver at h) =
    ground (arith, e, (approval_sound job approver at h).0)
reported_final {job} e (begins policy subjects now h) =
    ground (arith, e, (execution_rechecks job policy subjects now h).0)
reported_final {job} e (verifies outcomes h) =
    ground (arith, e, (verification_covers_plan job outcomes h).0)
reported_final {job} e (completes outcomes retention_class at h) =
    ground (arith, e, (completion_sound job outcomes retention_class at h).0)
reported_final {job} e (abandons reason h) = (abandon_sound job reason h).0 e
