-- ===== src/Pades.antt =====
-- packages/pades/src/index.ts: whether a signature may be registered, and at which level.
pub mod Laws
pub mod Refusal
use kommunsign.Prelude.{
  ℕ, String, Bool, true, false, not, ◌&&◌, ◌||◌, Option, none, some, List, leb, is_empty, includes,
  Eq, eq_by_index, ◌≡◌, refl, if◌then◌else◌, Result, ok, err, ◌>>=◌, ◌>>◌, throw_if,
}
use kommunsign.Prelude.Text.{is_missing}

pub data PadesLevel : Type 0 where
  level_b level_t level_lt level_lta : PadesLevel

-- `PADES_LEVELS.indexOf(level)`
abbrev pub level_index : PadesLevel → ℕ
level_index level_b = 0
level_index level_t = 1
level_index level_lt = 2
level_index level_lta = 3

pub data RequiredPadesLevel : Type 0 where
  no_level : RequiredPadesLevel
  at_least : PadesLevel → RequiredPadesLevel

pub data ValidationResult : Type 0 where
  total_passed indeterminate total_failed : ValidationResult

abbrev pub result_index : ValidationResult → ℕ
result_index total_passed = 0
result_index indeterminate = 1
result_index total_failed = 2

pub result_index_injective : (a b : ValidationResult) → result_index a ≡ result_index b → a ≡ b
result_index_injective total_passed total_passed h = refl
result_index_injective total_passed indeterminate h = absurd (cc)
result_index_injective total_passed total_failed h = absurd (cc)
result_index_injective indeterminate total_passed h = absurd (cc)
result_index_injective indeterminate indeterminate h = refl
result_index_injective indeterminate total_failed h = absurd (cc)
result_index_injective total_failed total_passed h = absurd (cc)
result_index_injective total_failed indeterminate h = absurd (cc)
result_index_injective total_failed total_failed h = refl

instance abbrev pub result_eq : Eq ValidationResult
result_eq = eq_by_index result_index result_index_injective

pub record SignatureEvidence : Type 0 where
  pub signing_certificate_reference : Option String
  pub certificate_chain_reference : Option String
  pub signed_revision_sha256 : Option String
  pub signature_timestamp_reference : Option String
  pub archive_timestamp_reference : Option String
  pub revocation_evidence_references : List String
  pub trust_list_snapshot_reference : Option String
  pub validation_result : Option ValidationResult
  pub validated_at : Option String

pub record PadesAdmissionPolicy : Type 0 where
  pub required_pades_level : RequiredPadesLevel
  pub requires_timestamp : Bool
  pub allowed_validation_results : List ValidationResult

pub data PadesRejectionCode : Type 0 where
  signature_missing certificate_missing chain_missing not_validated : PadesRejectionCode
  validation_failed validation_result_not_allowed timestamp_missing : PadesRejectionCode
  revocation_evidence_missing trust_list_missing archive_timestamp_missing : PadesRejectionCode
  level_not_reached not_required_by_policy : PadesRejectionCode

unfoldable pub attained_pades_level : SignatureEvidence → Option PadesLevel
attained_pades_level evidence =
    if is_missing evidence.signed_revision_sha256
      || (is_missing evidence.signing_certificate_reference
          || is_missing evidence.certificate_chain_reference)
    then none
    else if is_missing evidence.signature_timestamp_reference
    then some level_b
    else if is_empty evidence.revocation_evidence_references
        || is_missing evidence.trust_list_snapshot_reference
    then some level_t
    else if is_missing evidence.archive_timestamp_reference
    then some level_lt
    else some level_lta

abbrev pub level_at_least : PadesLevel → PadesLevel → Bool
level_at_least actual required = leb (level_index required) (level_index actual)

-- `required === 'LT' || required === 'LTA'`, and `required === 'LTA'`.
abbrev pub is_long_term : PadesLevel → Bool
is_long_term level_b = false
is_long_term level_t = false
is_long_term level_lt = true
is_long_term level_lta = true

abbrev pub is_archival : PadesLevel → Bool
is_archival level_b = false
is_archival level_t = false
is_archival level_lt = false
is_archival level_lta = true

unfoldable pub missing_evidence_code : SignatureEvidence → PadesLevel → PadesRejectionCode
missing_evidence_code evidence required =
    if is_missing evidence.signed_revision_sha256
    then signature_missing
    else if is_missing evidence.signing_certificate_reference
    then certificate_missing
    else if is_missing evidence.certificate_chain_reference
    then chain_missing
    else if is_missing evidence.signature_timestamp_reference
    then timestamp_missing
    else if is_long_term required && is_empty evidence.revocation_evidence_references
    then revocation_evidence_missing
    else if is_long_term required && is_missing evidence.trust_list_snapshot_reference
    then trust_list_missing
    else if is_archival required && is_missing evidence.archive_timestamp_reference
    then archive_timestamp_missing
    else level_not_reached

pub record PadesAdmission : Type 0 where
  pub admitted_level : PadesLevel
  pub validation_result : ValidationResult
  pub validated_at : String

-- The validation, whatever the level.
abbrev pub not_failed : ValidationResult → Result PadesRejectionCode (Unit {0})
not_failed total_passed = ok tt
not_failed indeterminate = ok tt
not_failed total_failed = err validation_failed

abbrev pub validated :
    Option ValidationResult → Option String → Result PadesRejectionCode (ValidationResult × String)
validated none at = err not_validated
validated (some result) none = err not_validated
validated (some result) (some at) = ok (result, at)

abbrev pub attained_or :
    Option PadesLevel → PadesRejectionCode → Result PadesRejectionCode PadesLevel
attained_or none code = err code
attained_or (some level) code = ok level

-- The level, behind the validation.
abbrev pub admit_level :
    PadesLevel
    → PadesAdmissionPolicy
    → SignatureEvidence
    → ValidationResult
    → String
    → Result PadesRejectionCode PadesAdmission
admit_level required policy evidence result at = do
  attained ← attained_or (attained_pades_level evidence) (missing_evidence_code evidence required)
  throw_if (policy.requires_timestamp && is_missing evidence.signature_timestamp_reference)
      timestamp_missing
  throw_if (not (level_at_least attained required)) (missing_evidence_code evidence required)
  ok (record { admitted_level = attained; validation_result = result; validated_at = at })

-- What is admitted where the policy asks for a level.
unfoldable pub admit_at :
    PadesLevel → PadesAdmissionPolicy → SignatureEvidence → Result PadesRejectionCode PadesAdmission
admit_at required policy evidence = do
  (result, at) ← validated evidence.validation_result evidence.validated_at
  not_failed result
  throw_if (not (includes policy.allowed_validation_results result)) validation_result_not_allowed
  admit_level required policy evidence result at

abbrev pub admit_for :
    RequiredPadesLevel
    → PadesAdmissionPolicy
    → SignatureEvidence
    → Result PadesRejectionCode PadesAdmission
admit_for no_level policy evidence = err not_required_by_policy
admit_for (at_least required) policy evidence = admit_at required policy evidence

unfoldable pub admit_pades_signature :
    PadesAdmissionPolicy → SignatureEvidence → Result PadesRejectionCode PadesAdmission
unfolding admit_at
admit_pades_signature policy evidence = admit_for policy.required_pades_level policy evidence
