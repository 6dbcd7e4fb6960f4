-- ===== src/Retention/Executor/Recheck.antt =====
-- What `beginGallringExecution` has asked again before anything is deleted.
use kommunsign.Prelude.{
  ℕ, suc, String, ◌≡◌, ◌≢◌, refl, sym, ap, true, List, [], ◌∷◌, map, arith, ok, throw_if, for_each,
  for_each-All, includes, string_eq, nat_eq, length, All, Distinct, >>-eq-ok, Result-cases, inl,
  inr, eq_iff, ok_injective, ◌!=◌,
}
use kommunsign.Prelude.Pigeonhole.{pigeonhole}
use kommunsign.Retention.Types.{
  RetentionPolicy, RetentionSubject, RetentionDecision, retain, action_eq,
}
use kommunsign.Retention.Policy.{decide_retention}
use kommunsign.Retention.Executor.{
  GallringJob, approved, executing, recheck, begin_gallring_execution, assert_state, decision_stale,
}

-- The subject belongs to the job, and the decision of now is that of the queue.
pub record IsRechecked (job : GallringJob) (policy : RetentionPolicy) (now : ℕ)
    (subject : RetentionSubject) : Type 0 where
  pub tenant : subject.tenant_id ≡ job.tenant_id
  pub listed : includes job.case_ids subject.case_id ≡ true
  pub decision : RetentionDecision
  pub decided : decide_retention policy subject now ≡ ok decision
  pub due : decision.action ≢ retain
  pub unchanged : decision.action ≡ job.queued_decision.action

recheck_sound :
    (job : GallringJob) (policy : RetentionPolicy) (now : ℕ) (subject : RetentionSubject)
    → recheck job policy now subject ≡ ok tt
    → IsRechecked job policy now subject
unfolding recheck
recheck_sound job policy now subject h = elim (Result-cases (decide_retention policy subject now)) [
  | inl (decision, decided) ↦ record {
    tenant = ground (arith, eq_iff subject.tenant_id job.tenant_id);
    listed = ground arith;
    decision = decision;
    decided = decided;
    due = ground arith;
    unchanged = ground arith;
  }
  | inr (e, failed) ↦ absurd (ground arith)
]

Rechecked :
    (job : GallringJob) (policy : RetentionPolicy) (now : ℕ) (subjects : List RetentionSubject)
    → All (λ s. recheck job policy now s ≡ ok tt) subjects
    → All (IsRechecked job policy now) subjects
Rechecked job policy now [] h = tt
Rechecked job policy now (s ∷ ss) h =
    (recheck_sound job policy now s h.0, Rechecked job policy now ss h.1)

-- An execution begins only when every subject that is handed over is still due, by the action that
-- was queued: a case on which a legal hold was placed since stops the whole job.
pub execution_rechecks :
    (job : GallringJob) (policy : RetentionPolicy) (subjects : List RetentionSubject) (now : ℕ)
    {job' : GallringJob}
    → begin_gallring_execution job policy subjects now ≡ ok job'
    → (job.state ≡ approved)
      × (length subjects ≡ length job.case_ids)
      × All (IsRechecked job policy now) subjects
      × (job' ≡ record job { state = executing })
unfolding begin_gallring_execution
execution_rechecks job policy subjects now h =
    let (ready, h1) = >>-eq-ok (assert_state job approved) _ h in
    let (many, h2) =
      >>-eq-ok (throw_if (length subjects != length job.case_ids) decision_stale) _ h1 in
    let (checked, h3) = >>-eq-ok (for_each subjects (recheck job policy now)) _ h2 in
    (
      ground (arith, ready),
      ground (arith, many),
      Rechecked job policy now subjects (for_each-All subjects _ checked),
      sym (ok_injective h3),
    )

abbrev pub case_ids_of : List RetentionSubject → List String
case_ids_of subjects = map (λ (s : RetentionSubject). s.case_id) subjects

listed_ids :
    (job : GallringJob) (policy : RetentionPolicy) (now : ℕ) (subjects : List RetentionSubject)
    → All (IsRechecked job policy now) subjects
    → All (λ c. includes job.case_ids c ≡ true) (case_ids_of subjects)
listed_ids job policy now [] h = tt
listed_ids job policy now (s ∷ ss) h = (h.0.listed, listed_ids job policy now ss h.1)

length-case_ids_of : (ss : List RetentionSubject) → length (case_ids_of ss) ≡ length ss
length-case_ids_of [] = refl
length-case_ids_of (s ∷ ss) = ap suc (length-case_ids_of ss)

-- If the subjects are of different cases, then every case of the job was asked again.
pub execution_covers_cases :
    (job : GallringJob) (policy : RetentionPolicy) (subjects : List RetentionSubject) (now : ℕ)
    {job' : GallringJob} (case_id : String)
    → begin_gallring_execution job policy subjects now ≡ ok job'
    → Distinct (case_ids_of subjects)
    → includes job.case_ids case_id ≡ true
    → includes (case_ids_of subjects) case_id ≡ true
execution_covers_cases job policy subjects now case_id h distinct m =
    let (ready, many, checked, same) = execution_rechecks job policy subjects now h in
    pigeonhole (case_ids_of subjects) job.case_ids distinct
      (listed_ids job policy now subjects checked)
      (omega (arith, length-case_ids_of subjects, many)) case_id m
