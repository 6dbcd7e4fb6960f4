-- ===== src/Tests/Signatures.antt =====
-- Runs of packages/pades, and its theorems applied.
use kommunsign.Prelude.{String, ◌≡◌, refl, true, Option, none, some, [], ◌∷◌, ok, err}
use kommunsign.Pades.{
  level_lt, at_least, total_passed, SignatureEvidence, PadesAdmissionPolicy, PadesAdmission,
  trust_list_missing, attained_pades_level, missing_evidence_code, admit_pades_signature,
}
use kommunsign.Pades.Laws.{IsJustified, admission_sound}
use kommunsign.Pades.Refusal.{Missing, refusal_names-Missing}

abbrev evidence : Option String → SignatureEvidence
evidence trust_list = record {
  signing_certificate_reference = some "c";
  certificate_chain_reference = some "h";
  signed_revision_sha256 = some "s";
  signature_timestamp_reference = some "t";
  archive_timestamp_reference = none;
  revocation_evidence_references = "r" ∷ [];
  trust_list_snapshot_reference = trust_list;
  validation_result = some total_passed;
  validated_at = some "2026-01-01T00:00:00Z";
}

abbrev policy : PadesAdmissionPolicy
policy = record {
  required_pades_level = at_least level_lt;
  requires_timestamp = true;
  allowed_validation_results = total_passed ∷ [];
}

abbrev admission : PadesAdmission
admission = record {
  admitted_level = level_lt;
  validation_result = total_passed;
  validated_at = "2026-01-01T00:00:00Z";
}

admitted_run : admit_pades_signature policy (evidence (some "l")) ≡ ok admission
unfolding admit_pades_signature attained_pades_level
admitted_run = refl

refused_run : admit_pades_signature policy (evidence none) ≡ err trust_list_missing
unfolding admit_pades_signature attained_pades_level missing_evidence_code
refused_run = refl

admission_sound_example : IsJustified policy (evidence (some "l")) admission
admission_sound_example = admission_sound policy (evidence (some "l")) admission admitted_run

refusal_names-Missing_example : Missing policy (evidence none) trust_list_missing
refusal_names-Missing_example =
    refusal_names-Missing policy (evidence none) trust_list_missing refused_run
