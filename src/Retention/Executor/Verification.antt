-- ===== src/Retention/Executor/Verification.antt =====
-- What a verified execution has shown, and what a report says.
use kommunsign.Prelude.{
  ◌≡◌, refl, sym, ◌∙◌, inl, inr, Bool, true, false, not, ◌||◌, List, [], ◌∷◌, arith, ok, throw_if,
  Bool-cases, includes, string_eq, is_empty, All, Distinct, Fresh, Fresh-cons, subst,
  filter-eq-nil_iff, >>=-eq-ok, >>-eq-ok, ok_injective, ==_iff, ◌==◌,
}
use kommunsign.Retention.Report.{GallringTarget, GallringTargetOutcome, targets_of, unverified_of}
use kommunsign.Retention.Executor.{
  GallringJob, GallringError, executing, verified, address_all, outcome_duplicate, assert_state,
  target_not_executed, target_not_planned, not_verified, verify_gallring_execution,
}

-- The targets come out in reverse; each is new when it is met.
address_all_sound :
    (addressed ts : List GallringTarget) {all : List GallringTarget}
    → address_all addressed ts ≡ ok all
    → ((t : GallringTarget) → includes all t ≡ (includes addressed t || includes ts t))
      × Fresh addressed ts
      × Distinct ts
unfolding address_all
address_all_sound addressed [] h = (λ t. ground arith, tt, tt)
address_all_sound addressed (x ∷ ts) h =
    let (new, h') = >>-eq-ok (throw_if (includes addressed x) outcome_duplicate) _ h in
    let (same, later, distinct) = address_all_sound (x ∷ addressed) ts h' in
    let (fresh, absent) = Fresh-cons x addressed ts later in
    (λ t. ground (arith, same t), (ground (arith, new), fresh), (absent, distinct))

subset :
    (p : GallringTarget → Bool) (ts : List GallringTarget)
    → All (λ t. not (p t) ≡ false) ts
    → (t : GallringTarget) → includes ts t ≡ true
    → p t ≡ true
subset p [] h t m = cc
subset p (x ∷ xs) h t m = elim (Bool-cases (x == t)) [
  | inl same ↦ subst (λ y. p y ≡ true) ((==_iff x t).0 same) (ground (arith, h.0))
  | inr other ↦ subset p xs h.1 t (rw other at m)
]

unverified-nil :
    (outcomes : List GallringTargetOutcome)
    → unverified_of outcomes ≡ []
    → All (λ o. o.verified ≡ true) outcomes
unverified-nil [] h = tt
unverified-nil (o ∷ os) h = elim (Bool-cases o.verified) [
  | inl v ↦ (v, unverified-nil os (rw v at h))
  | inr u ↦ absurd (cons_nil (rw u at h))
]
  where
    cons_nil : {t : GallringTarget} {ts : List GallringTarget} → t ∷ ts ≡ [] → ⊥
    cons_nil e = cc

nil_of_check :
    (ts : List GallringTarget) (e : GallringError)
    → throw_if (not (is_empty ts)) e ≡ ok tt
    → ts ≡ []
nil_of_check [] e h = refl
nil_of_check (t ∷ ts) e h = cc

-- What verification promises: the outcomes name the planned targets, each once, all verified.
pub record IsCovered (planned : List GallringTarget) (outcomes : List GallringTargetOutcome)
    : Type 0 where
  pub addressed : (t : GallringTarget) → includes planned t ≡ includes (targets_of outcomes) t
  pub once : Distinct (targets_of outcomes)
  pub confirmed : All (λ o. o.verified ≡ true) outcomes

bool_ext : (a b : Bool) → (a ≡ true → b ≡ true) → (b ≡ true → a ≡ true) → a ≡ b
bool_ext a b f g = ground arith

-- An execution is verified only if its outcomes cover the plan exactly, each store once, with every
-- deletion confirmed.
pub verification_covers_plan :
    (job : GallringJob) (outcomes : List GallringTargetOutcome) {job' : GallringJob}
    → verify_gallring_execution job outcomes ≡ ok job'
    → (job.state ≡ executing)
      × IsCovered job.planned_targets outcomes
      × (job' ≡ record job { state = verified })
unfolding verify_gallring_execution
verification_covers_plan job outcomes h =
    let (running, h1) = >>-eq-ok (assert_state job executing) _ h in
    let (all, met, h2) = >>=-eq-ok (address_all [] (targets_of outcomes)) _ h1 in
    let (same, fresh, distinct) = address_all_sound [] (targets_of outcomes) met in
    let (none_missing, h3) = >>-eq-ok _ _ h2 in
    let (none_unplanned, h4) = >>-eq-ok _ _ h3 in
    let (none_unverified, h5) = >>-eq-ok _ _ h4 in
    let missing =
      (filter-eq-nil_iff _ job.planned_targets).0
        (nil_of_check _ target_not_executed none_missing) in
    let unplanned =
      (filter-eq-nil_iff _ (targets_of outcomes)).0
        (nil_of_check _ target_not_planned none_unplanned) in
    (
      ground (arith, running),
      record {
        addressed = λ t.
            bool_ext _ _ (λ m. sym (same t) ∙ subset (includes all) job.planned_targets missing t m)
              (subset (includes job.planned_targets) (targets_of outcomes) unplanned t);
        once = distinct;
        confirmed = unverified-nil outcomes (nil_of_check _ not_verified none_unverified);
      },
      sym (ok_injective h5),
    )
