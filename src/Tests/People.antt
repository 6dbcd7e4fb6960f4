-- ===== src/Tests/People.antt =====
-- Runs of packages/personal-number and packages/archive, and their theorems applied.
use kommunsign.Prelude.{ℕ, ◌≡◌, ◌↔◌, refl, true, false, none, some, List, [], ◌∷◌, ok, err}
use kommunsign.Prelude.Text.{codes, trim, is_blank}
use kommunsign.PersonalNumber.{
  CalendarDate, days_in_month, carry_days, from_day, make_date, is_calendar_date, read_digits,
  infer_century, luhn_valid, check_number, normalise_digits, normalise_swedish_personal_number,
  personal_number_invalid, exception_not_allowed, BindingRequest, strict_prebound,
  data_minimization, decide_exception, decide_without_number, decide_with_number,
  decide_identifier_binding,
}
use kommunsign.PersonalNumber.Dates.{IsPersonalNumber, IsPersonalNumber-sound}
use kommunsign.PersonalNumber.Binding.{IsDecided, binding_sound}
use kommunsign.Archive.{
  ArchiveCase, ArchiveDocument, pdf_a_2b, ArchiveSignatureEvidence, ArchiveIdentityEvidence,
  electronic_signature, identity_evidence_missing, assert_signed, assert_archivable,
}
use kommunsign.Archive.Laws.{IsArchivable, IsArchivable-iff}

abbrev today : CalendarDate
today = record { year = 2026; month = 11; day = 26 }

steps : Unit {0}
unfolding days_in_month carry_days from_day make_date is_calendar_date read_digits infer_century
    luhn_valid check_number normalise_digits normalise_swedish_personal_number
steps = tt

abbrev tolvan : List ℕ
tolvan = 1 ∷ 9 ∷ 1 ∷ 2 ∷ 1 ∷ 2 ∷ 1 ∷ 2 ∷ 1 ∷ 2 ∷ 1 ∷ 2 ∷ []

tolvan_run : normalise_swedish_personal_number (codes "19121212-1212") today ≡ ok tolvan
unfolding steps
tolvan_run = refl

-- Without the century, 12 December 2012 lies before the reference date.
century_run :
    normalise_swedish_personal_number (codes "121212-1212") today
    ≡ ok (2 ∷ 0 ∷ 1 ∷ 2 ∷ 1 ∷ 2 ∷ 1 ∷ 2 ∷ 1 ∷ 2 ∷ 1 ∷ 2 ∷ [])
unfolding steps
century_run = refl

wrong_run :
    normalise_swedish_personal_number (codes "19121212-1213") today ≡ err personal_number_invalid
unfolding steps
wrong_run = refl

-- 30 February runs over into March.
february_run : is_calendar_date 2024 2 30 ≡ false
unfolding steps
february_run = refl

leap_run : is_calendar_date 2024 2 29 ≡ true
unfolding steps
leap_run = refl

IsPersonalNumber-sound_example : IsPersonalNumber tolvan
IsPersonalNumber-sound_example = IsPersonalNumber-sound (codes "19121212-1212") today tolvan_run

abbrev front : List ℕ
front = 1 ∷ 2 ∷ 1 ∷ 2 ∷ []

abbrev back : List ℕ
back = 2 ∷ 1 ∷ 2 ∷ 1 ∷ 2 ∷ []

valid_run : luhn_valid (1 ∷ 2 ∷ 1 ∷ 2 ∷ 1 ∷ back) ≡ true
unfolding steps
valid_run = refl

abbrev binding : BindingRequest
binding = record {
  personal_number = some "19121212-1212";
  require_personal_number_match = true;
  exception = none;
  tenant_allows_exception = false;
  actor_has_exception_permission = false;
  reference_date = today;
}

binding_run : decide_identifier_binding binding ≡ ok (strict_prebound tolvan)
unfolding steps decide_identifier_binding decide_with_number decide_without_number decide_exception
    trim is_blank
binding_run = refl

refused_run :
    decide_identifier_binding (record binding {
      personal_number = none;
      require_personal_number_match = false;
      exception = some (record { code = data_minimization; reason = none });
    })
    ≡ err exception_not_allowed
unfolding steps decide_identifier_binding decide_with_number decide_without_number decide_exception
    trim is_blank
refused_run = refl

binding_sound_example : IsDecided binding (strict_prebound tolvan)
binding_sound_example = binding_sound binding binding_run

abbrev document : ArchiveDocument
document = record {
  document_id = "d";
  document_version_id = "v";
  display_name = "avtal.pdf";
  sha256 = "ab";
  byte_size = 10;
  verified_profile = some pdf_a_2b;
  is_signed_artifact = true;
}

abbrev signature : ArchiveSignatureEvidence
signature = record {
  signer_id = "s";
  signed_at = "2026-01-01";
  pades_level = none;
  signature_artifact_sha256 = some "cd";
  validation_report_sha256 = some "ef";
  timestamp_token_sha256 = none;
}

abbrev identity : ArchiveIdentityEvidence
identity = record {
  signer_id = "s";
  provider = "bankid";
  assurance_level = "high";
  masked_identifier = "1912••••-1212";
  verified_at = "2026-01-01";
  evidence_sha256 = "01";
}

abbrev archive_case : ArchiveCase
archive_case = record {
  tenant_id = "t";
  signature_case_id = "c";
  reference = "KS-1";
  title = "Avtal";
  decision_mode = electronic_signature;
  status = "completed";
  created_at = "2026-01-01";
  closed_at = some "2026-01-02";
  documents = document ∷ [];
  signatures = signature ∷ [];
  identities = identity ∷ [];
  audit_trail_sha256 = some "23";
}

archivable_run : assert_archivable archive_case ≡ ok tt
unfolding assert_archivable assert_signed
archivable_run = refl

untraced_run :
    assert_archivable (record archive_case { identities = [] }) ≡ err identity_evidence_missing
unfolding assert_archivable assert_signed
untraced_run = refl

IsArchivable-iff_example : (assert_archivable archive_case ≡ ok tt) ↔ IsArchivable archive_case
IsArchivable-iff_example = IsArchivable-iff archive_case
