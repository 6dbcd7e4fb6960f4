-- ===== src/Retention/Report.antt =====
-- packages/retention/src/index.ts: the gallring report.
pub mod Laws
use kommunsign.Prelude.{
  ℕ, String, Bool, not, List, [], ◌∷◌, map, Result, ok, ◌>>◌, throw_if, includes, string_eq, filter,
  length, is_empty, sum_by,
}
use kommunsign.Prelude.Number.{Number, is_safe_from, to_ℕ, IsoDateTime}
use kommunsign.Retention.Types.{
  RetentionClass, RetentionPolicyError, report_empty, target_unknown, target_duplicate,
  count_invalid,
}

-- A target is its name.
abbrev pub GallringTarget : Type 0
GallringTarget = String

abbrev pub gallring_targets : List GallringTarget
gallring_targets =
    "signature_case" ∷ "documents" ∷ "document_versions" ∷ "object_storage" ∷ "evidence_packages"
    ∷ "derived_renders" ∷ "search_index" ∷ "cache" ∷ "notifications" ∷ []

pub record GallringTargetOutcome : Type 0 where
  pub target : GallringTarget
  pub deleted_count : Number
  pub verified : Bool

pub record GallringReportInput : Type 0 where
  pub tenant_id : String
  pub job_id : String
  pub policy_key : String
  pub policy_version : Number
  pub retention_class : RetentionClass
  pub executed_by : String
  pub executed_at : IsoDateTime
  pub case_ids : List String
  pub outcomes : List GallringTargetOutcome

pub record GallringReport : Type 0 where
  pub input : GallringReportInput
  pub schema_version : ℕ
  pub case_count : ℕ
  pub deleted_total : ℕ
  pub complete : Bool
  pub unverified_targets : List GallringTarget

-- The loop over the outcomes, with the set of the targets seen.
unfoldable pub check_outcomes :
    List GallringTarget → List GallringTargetOutcome → Result RetentionPolicyError (Unit {0})
check_outcomes seen [] = ok tt
check_outcomes seen (outcome ∷ outcomes) = do
  throw_if (not (includes gallring_targets outcome.target)) target_unknown
  throw_if (includes seen outcome.target) target_duplicate
  throw_if (not (is_safe_from 0 outcome.deleted_count)) count_invalid
  check_outcomes (outcome.target ∷ seen) outcomes

abbrev pub targets_of : List GallringTargetOutcome → List GallringTarget
targets_of outcomes = map (λ (outcome : GallringTargetOutcome). outcome.target) outcomes

abbrev pub unverified_of : List GallringTargetOutcome → List GallringTarget
unverified_of outcomes =
    targets_of (filter (λ (outcome : GallringTargetOutcome). not outcome.verified) outcomes)

abbrev pub report_of : GallringReportInput → GallringReport
report_of input = record {
  input = input;
  schema_version = 1;
  case_count = length input.case_ids;
  deleted_total = sum_by (λ (o : GallringTargetOutcome). to_ℕ o.deleted_count) input.outcomes;
  complete = is_empty (unverified_of input.outcomes);
  unverified_targets = unverified_of input.outcomes;
}

unfoldable pub build_gallring_report :
    GallringReportInput → Result RetentionPolicyError GallringReport
build_gallring_report input = do
  throw_if (is_empty input.case_ids) report_empty
  check_outcomes [] input.outcomes
  ok (report_of input)
