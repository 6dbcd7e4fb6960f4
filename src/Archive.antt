-- ===== src/Archive.antt =====
-- packages/archive/src/index.ts: which case may be exported for preservation.
pub mod Laws
use kommunsign.Prelude.{
  ℕ, String, ◌≡◌, Bool, not, ◌||◌, Option, none, some, List, [], ◌∷◌, map, arith, Result, ok, err,
  ◌>>=◌, ◌>>◌, throw_if, for_each, if◌then◌else◌, is_none, ◌==◌, Eq, eq_by_index, string_eq,
  includes, is_empty,
}
use kommunsign.Prelude.Text.{is_missing}

pub data ArchiveError : Type 0 where
  document_missing signature_evidence_missing identity_evidence_missing : ArchiveError
  audit_trail_missing case_not_closed profile_not_verified : ArchiveError

pub data PdfProfile : Type 0 where
  pdf_a_2b pdf_a_3b : PdfProfile

pub record ArchiveDocument : Type 0 where
  pub document_id : String
  pub document_version_id : String
  pub display_name : String
  pub sha256 : String
  pub byte_size : ℕ
  pub verified_profile : Option PdfProfile
  pub is_signed_artifact : Bool

pub record ArchiveSignatureEvidence : Type 0 where
  pub signer_id : String
  pub signed_at : String
  pub pades_level : Option String
  pub signature_artifact_sha256 : Option String
  pub validation_report_sha256 : Option String
  pub timestamp_token_sha256 : Option String

pub record ArchiveIdentityEvidence : Type 0 where
  pub signer_id : String
  pub provider : String
  pub assurance_level : String
  pub masked_identifier : String
  pub verified_at : String
  pub evidence_sha256 : String

pub data DecisionMode : Type 0 where
  digital_approval electronic_signature : DecisionMode

abbrev pub decision_mode_index : DecisionMode → ℕ
decision_mode_index digital_approval = 0
decision_mode_index electronic_signature = 1

pub decision_mode_index-injective :
    (a b : DecisionMode) → decision_mode_index a ≡ decision_mode_index b → a ≡ b
decision_mode_index-injective a b h = ground arith

instance abbrev pub decision_mode_eq : Eq DecisionMode
decision_mode_eq = eq_by_index decision_mode_index decision_mode_index-injective

pub record ArchiveCase : Type 0 where
  pub tenant_id : String
  pub signature_case_id : String
  pub reference : String
  pub title : String
  pub decision_mode : DecisionMode
  pub status : String
  pub created_at : String
  pub closed_at : Option String
  pub documents : List ArchiveDocument
  pub signatures : List ArchiveSignatureEvidence
  pub identities : List ArchiveIdentityEvidence
  pub audit_trail_sha256 : Option String

abbrev pub check_profile : ArchiveDocument → Result ArchiveError (Unit {0})
check_profile document = throw_if (is_none document.verified_profile) profile_not_verified

abbrev pub check_evidence : ArchiveSignatureEvidence → Result ArchiveError (Unit {0})
check_evidence signature =
    throw_if
      (is_missing signature.signature_artifact_sha256
        || is_missing signature.validation_report_sha256)
      signature_evidence_missing

-- The block for an electronic signature.
unfoldable pub assert_signed : ArchiveCase → Result ArchiveError (Unit {0})
assert_signed archive_case =
    throw_if (is_empty archive_case.signatures) signature_evidence_missing
    >> for_each archive_case.signatures check_evidence

-- `new Set(identities.map(identity => identity.signerId))`
abbrev pub identity_signers : ArchiveCase → List String
identity_signers archive_case =
    map (λ (identity : ArchiveIdentityEvidence). identity.signer_id) archive_case.identities

abbrev pub check_identity : ArchiveCase → ArchiveSignatureEvidence → Result ArchiveError (Unit {0})
check_identity archive_case signature =
    throw_if (not (includes (identity_signers archive_case) signature.signer_id))
      identity_evidence_missing

unfoldable pub assert_archivable : ArchiveCase → Result ArchiveError (Unit {0})
assert_archivable archive_case = do
  throw_if (is_none archive_case.closed_at) case_not_closed
  throw_if (is_empty archive_case.documents) document_missing
  for_each archive_case.documents check_profile
  if archive_case.decision_mode == electronic_signature then assert_signed archive_case else ok tt
  for_each archive_case.signatures (check_identity archive_case)
  throw_if (is_none archive_case.audit_trail_sha256) audit_trail_missing
