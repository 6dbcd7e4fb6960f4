-- ===== src/Retention/Report/Laws.antt =====
-- When a gallring report is built, and what it says.
use kommunsign.Prelude.{
  ◌≡◌, refl, true, false, not, List, [], ◌∷◌, arith, ok, throw_if, includes, string_eq, is_empty,
  All, Distinct, Fresh, Fresh-cons, Fresh-nil, >>-eq-ok, throw_if-eq-ok,
}
use kommunsign.Prelude.Unique.{Fresh-push}
use kommunsign.Prelude.Number.{is_safe_from}
use kommunsign.Retention.Types.{target_unknown, target_duplicate, count_invalid, report_empty}
use kommunsign.Retention.Report.{
  GallringTarget, gallring_targets, GallringTargetOutcome, GallringReportInput, GallringReport,
  targets_of, check_outcomes, build_gallring_report, report_of,
}

-- An outcome for one of the nine targets, with a count that is a natural number.
pub record IsOutcome (outcome : GallringTargetOutcome) : Type 0 where
  pub known : includes gallring_targets outcome.target ≡ true
  pub counted : is_safe_from 0 outcome.deleted_count ≡ true

pub record IsReportable (input : GallringReportInput) : Type 0 where
  pub some_case : is_empty input.case_ids ≡ false
  pub outcomes : All IsOutcome input.outcomes
  pub once : Distinct (targets_of input.outcomes)

check_sound :
    (seen : List GallringTarget) (outcomes : List GallringTargetOutcome)
    → check_outcomes seen outcomes ≡ ok tt
    → All IsOutcome outcomes × Fresh seen (targets_of outcomes) × Distinct (targets_of outcomes)
unfolding check_outcomes
check_sound seen [] h = (tt, tt, tt)
check_sound seen (o ∷ os) h =
    let (known, h1) =
      >>-eq-ok (throw_if (not (includes gallring_targets o.target)) target_unknown) _ h in
    let (new, h2) = >>-eq-ok (throw_if (includes seen o.target) target_duplicate) _ h1 in
    let (counted, h3) =
      >>-eq-ok (throw_if (not (is_safe_from 0 o.deleted_count)) count_invalid) _ h2 in
    let (rest, later, distinct) = check_sound (o.target ∷ seen) os h3 in
    let (fresh, absent) = Fresh-cons o.target seen (targets_of os) later in
    (
      (record { known = ground (arith, known); counted = ground (arith, counted) }, rest),
      (throw_if-eq-ok _ _ new, fresh),
      (absent, distinct),
    )

check_complete :
    (seen : List GallringTarget) (outcomes : List GallringTargetOutcome)
    → All IsOutcome outcomes
    → Fresh seen (targets_of outcomes)
    → Distinct (targets_of outcomes)
    → check_outcomes seen outcomes ≡ ok tt
unfolding check_outcomes
check_complete seen [] a f d = refl
check_complete seen (o ∷ os) a f d =
    rw (a.0.known, f.0, a.0.counted)
      (check_complete (o.target ∷ seen) os a.1 (Fresh-push o.target seen (targets_of os) f.1 d.0)
        d.1)

-- A report is built for at least one case from outcomes for known targets, each once, and says
-- what `report_of` says.
pub report_built :
    (input : GallringReportInput)
    → IsReportable input
    → build_gallring_report input ≡ ok (report_of input)
unfolding build_gallring_report
report_built input r =
    rw (r.some_case, check_complete [] input.outcomes r.outcomes (Fresh-nil _) r.once) refl

pub report_checked :
    (input : GallringReportInput) {report : GallringReport}
    → build_gallring_report input ≡ ok report
    → IsReportable input × (report ≡ report_of input)
unfolding build_gallring_report
report_checked input h =
    let (some_case, h1) = >>-eq-ok (throw_if (is_empty input.case_ids) report_empty) _ h in
    let (checked, h2) = >>-eq-ok (check_outcomes [] input.outcomes) _ h1 in
    let (outcomes, fresh, once) = check_sound [] input.outcomes checked in
    (
      record { some_case = throw_if-eq-ok _ _ some_case; outcomes = outcomes; once = once },
      ground (arith, h2),
    )
