-- ===== src/Tests/Intake.antt =====
-- Runs of packages/uploads, and its theorems applied.
use kommunsign.Prelude.{ℕ, ◌≡◌, refl, true, List, [], ◌∷◌, replicate, ok, err}
use kommunsign.Prelude.Number.{whole}
use kommunsign.Prelude.Text.{codes, trim_codes}
use kommunsign.Uploads.{
  UploadMetadata, UploadPolicy, macro_format_forbidden, zip, macro_office_extensions,
  microsoft_365_entries, open_document_entries, office_entries, normalise,
  detect_document_mime_type, stored_bytes_match_grant, check_office, validate_upload_metadata,
  assert_magic_bytes_match,
}
use kommunsign.Uploads.Metadata.{IsAccepted, validation_sound}
use kommunsign.Uploads.Content.{begins, Declares, open_document_type, content_sound}

-- The examples are in small letters.
abbrev as_it_is : List ℕ → List ℕ
as_it_is s = s

abbrev odt : List ℕ
odt = codes "application/vnd.oasis.opendocument.text"

abbrev digest : List ℕ
digest = replicate 64 b'a'

abbrev metadata : List ℕ → List ℕ → UploadMetadata
metadata file_name sha256 = record {
  file_name = file_name;
  mime_type = odt;
  byte_size = whole 9;
  sha256 = sha256;
}

abbrev policy : UploadPolicy
policy = record { allowed_mime_types = odt ∷ []; maximum_bytes = 10 }

steps : Unit {0}
unfolding validate_upload_metadata assert_magic_bytes_match stored_bytes_match_grant trim_codes
steps = tt

validated_run :
    validate_upload_metadata as_it_is (metadata (codes " a.odt") digest) policy
    ≡ ok (metadata (codes "a.odt") digest)
unfolding steps check_office macro_office_extensions microsoft_365_entries open_document_entries
    office_entries
validated_run = refl

macro_run :
    validate_upload_metadata as_it_is (metadata (codes "a.docm") digest) policy
    ≡ err macro_format_forbidden
unfolding steps macro_office_extensions
macro_run = refl

validation_sound_example :
    IsAccepted as_it_is (metadata (codes " a.odt") digest) policy (metadata (codes "a.odt") digest)
validation_sound_example =
    validation_sound as_it_is (metadata (codes " a.odt") digest) policy
      (metadata (codes "a.odt") digest) validated_run

stored_run : stored_bytes_match_grant as_it_is digest digest (whole 9) (whole 9) ≡ true
unfolding steps
stored_run = refl

odt_declared : Declares (normalise as_it_is odt) zip
unfolding trim_codes open_document_entries
odt_declared = open_document_type odt refl

content_run : assert_magic_bytes_match as_it_is odt (80 ∷ 75 ∷ 3 ∷ 4 ∷ []) ≡ ok tt
unfolding steps detect_document_mime_type microsoft_365_entries open_document_entries
content_run = refl

content_sound_example : begins zip (80 ∷ 75 ∷ 3 ∷ 4 ∷ []) ≡ true
content_sound_example =
    content_sound as_it_is odt (80 ∷ 75 ∷ 3 ∷ 4 ∷ []) zip odt_declared content_run
