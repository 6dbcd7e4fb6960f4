-- ===== src/Uploads.antt =====
-- packages/uploads/src/index.ts: what an uploader declares, and what arrives. A text is the list of its
-- code units.
pub mod Metadata
pub mod Content
use kommunsign.Prelude.{
  ℕ, ◌+◌, ◌-◌, ◌*◌, Bool, true, false, not, ◌&&◌, ◌||◌, Option, none, some, List, [], ◌∷◌, ◌++◌,
  any, all, ltb, leb, nat_beq, length, is_some, includes, map, if◌then◌else◌, ◌==◌, ◌!=◌, Result,
  ok, err, ◌>>=◌, ◌>>◌, throw_if,
}
use kommunsign.Prelude.Number.{Number, whole, negative, other, is_safe_integer, is_safe_from}
use kommunsign.Prelude.Text.{codes, is_hex, trim_codes, starts_with}
use kommunsign.Prelude.TextOrder.{codes_eq}

pub record UploadMetadata : Type 0 where
  pub file_name : List ℕ
  pub mime_type : List ℕ
  pub byte_size : Number
  pub sha256 : List ℕ

pub record UploadPolicy : Type 0 where
  pub allowed_mime_types : List (List ℕ)
  pub maximum_bytes : ℕ

pub data UploadError : Type 0 where
  file_name_invalid mime_type_forbidden size_forbidden macro_format_forbidden : UploadError
  mime_extension_mismatch sha256_invalid magic_bytes_mismatch : UploadError

-- `[^\u0000-\u001f\u007f\\/]`
abbrev pub is_file_name_letter : ℕ → Bool
is_file_name_letter c =
    ltb 31 c && not (nat_beq c 127) && (not (nat_beq c 92) && not (nat_beq c 47))

abbrev pub is_safe_file_name : List ℕ → Bool
is_safe_file_name s = leb 1 (length s) && leb (length s) 200 && all is_file_name_letter s

abbrev pub ends_with : List ℕ → List ℕ → Bool
ends_with part [] = part == []
ends_with part (c ∷ s) = part == (c ∷ s) || ends_with part s

-- Each entry of OFFICE_EXTENSION_BY_MIME: the type and the extension.
pub record OfficeEntry : Type 0 where
  pub mime_type : List ℕ
  pub extension : List ℕ

unfoldable pub microsoft_365_entries : List OfficeEntry
microsoft_365_entries =
    record {
      mime_type = codes "application/vnd.openxmlformats-officedocument.wordprocessingml.document";
      extension = codes ".docx";
    }
    ∷ record {
      mime_type = codes "application/vnd.openxmlformats-officedocument.spreadsheetml.sheet";
      extension = codes ".xlsx";
    }
    ∷ record {
      mime_type = codes "application/vnd.openxmlformats-officedocument.presentationml.presentation";
      extension = codes ".pptx";
    }
    ∷ []

unfoldable pub open_document_entries : List OfficeEntry
open_document_entries =
    record { mime_type = codes "application/vnd.oasis.opendocument.text"; extension = codes ".odt" }
    ∷ record {
      mime_type = codes "application/vnd.oasis.opendocument.spreadsheet";
      extension = codes ".ods";
    }
    ∷ []

unfoldable pub office_entries : List OfficeEntry
unfolding microsoft_365_entries open_document_entries
office_entries =
    microsoft_365_entries
    ++ (open_document_entries
        ++ record { mime_type = codes "application/rtf"; extension = codes ".rtf" } ∷ [])

abbrev pub has_type : List OfficeEntry → List ℕ → Bool
has_type entries mime_type = any (λ entry. entry.mime_type == mime_type) entries

-- `OFFICE_EXTENSION_BY_MIME[mimeType]`
abbrev pub extension_in : List OfficeEntry → List ℕ → List ℕ
extension_in [] mime_type = []
extension_in (entry ∷ entries) mime_type =
    if entry.mime_type == mime_type then entry.extension else extension_in entries mime_type

unfoldable pub macro_office_extensions : List (List ℕ)
macro_office_extensions =
    codes ".docm"
    ∷ codes ".xlsm"
    ∷ codes ".pptm"
    ∷ codes ".dotm"
    ∷ codes ".xltm"
    ∷ codes ".potm"
    ∷ []

abbrev pub office_source_max_bytes : ℕ
office_source_max_bytes = 50 * 1024 * 1024

abbrev pub exceeds : Number → ℕ → Bool
exceeds (whole n) most = ltb most n
exceeds (negative n) most = false
exceeds other most = false

-- `!Number.isSafeInteger(size) || size < 1 || size > maximum`
abbrev pub is_size_forbidden : Number → ℕ → Bool
is_size_forbidden size maximum = not (is_safe_from 1 size) || exceeds size maximum

-- `===` of two numbers that are safe integers.
abbrev pub same_number : Number → Number → Bool
same_number (whole n) (whole m) = nat_beq n m
same_number (whole n) (negative m) = false
same_number (whole n) other = false
same_number (negative n) (whole m) = false
same_number (negative n) (negative m) = nat_beq n m
same_number (negative n) other = false
same_number other m = false

pub data DetectedDocumentContainer : Type 0 where
  pdf zip rtf unknown : DetectedDocumentContainer

-- The leading bytes of the formats.
unfoldable pub detect_document_mime_type : List ℕ → DetectedDocumentContainer
detect_document_mime_type bytes =
    if starts_with (0x25 ∷ 0x50 ∷ 0x44 ∷ 0x46 ∷ 0x2d ∷ []) bytes
    then pdf
    else if starts_with (0x50 ∷ 0x4b ∷ 0x03 ∷ 0x04 ∷ []) bytes
        || (starts_with (0x50 ∷ 0x4b ∷ 0x05 ∷ 0x06 ∷ []) bytes
            || starts_with (0x50 ∷ 0x4b ∷ 0x07 ∷ 0x08 ∷ []) bytes)
    then zip
    else if starts_with (0x7b ∷ 0x5c ∷ 0x72 ∷ 0x74 ∷ 0x66 ∷ []) bytes
    then rtf
    else unknown

abbrev pub is_container : DetectedDocumentContainer → DetectedDocumentContainer → Bool
is_container pdf pdf = true
is_container zip zip = true
is_container rtf rtf = true
is_container unknown unknown = true
is_container a b = false

-- `lower` is `toLowerCase`.
module _ (lower : List ℕ → List ℕ) where
  abbrev pub normalise : List ℕ → List ℕ
  normalise s = lower (trim_codes s)

  unfoldable pub stored_bytes_match_grant : List ℕ → List ℕ → Number → Number → Bool
  stored_bytes_match_grant expected_sha256 actual_sha256 expected_size actual_size =
      is_hex 64 (normalise expected_sha256)
      && is_hex 64 (normalise actual_sha256)
      && (is_safe_integer expected_size && is_safe_integer actual_size)
      && (same_number expected_size actual_size
          && normalise expected_sha256 == normalise actual_sha256)

  -- The checks that are for office formats only.
  unfoldable pub check_office : List ℕ → List ℕ → Number → Result UploadError (Unit {0})
  unfolding office_entries
  check_office mime_type lower_file_name size =
      if has_type office_entries mime_type
      then (do
        throw_if (exceeds size office_source_max_bytes) size_forbidden
        throw_if (not (ends_with (extension_in office_entries mime_type) lower_file_name))
            mime_extension_mismatch
        ok tt)
      else ok tt

  unfoldable pub validate_upload_metadata :
      UploadMetadata → UploadPolicy → Result UploadError UploadMetadata
  unfolding check_office macro_office_extensions
  validate_upload_metadata input policy =
      let file_name = trim_codes input.file_name in
      let mime_type = normalise input.mime_type in
      let sha256 = normalise input.sha256 in
      do
        throw_if
            (not (is_safe_file_name file_name)
              || (file_name == codes "." || file_name == codes ".."))
            file_name_invalid
        throw_if (not (includes policy.allowed_mime_types mime_type)) mime_type_forbidden
        throw_if (is_size_forbidden input.byte_size policy.maximum_bytes) size_forbidden
        throw_if (any (λ extension. ends_with extension (lower file_name)) macro_office_extensions)
            macro_format_forbidden
        check_office mime_type (lower file_name) input.byte_size
        throw_if (not (is_hex 64 sha256)) sha256_invalid
        ok (record {
          file_name = file_name;
          mime_type = mime_type;
          byte_size = input.byte_size;
          sha256 = sha256;
        })

  unfoldable pub assert_magic_bytes_match : List ℕ → List ℕ → Result UploadError (Unit {0})
  unfolding detect_document_mime_type microsoft_365_entries open_document_entries
  assert_magic_bytes_match declared_mime_type bytes =
      let declared = normalise declared_mime_type in
      let detected = detect_document_mime_type bytes in
      do
        throw_if (declared == codes "application/pdf" && not (is_container detected pdf))
            magic_bytes_mismatch
        throw_if (declared == codes "application/rtf" && not (is_container detected rtf))
            magic_bytes_mismatch
        throw_if (has_type microsoft_365_entries declared && not (is_container detected zip))
            magic_bytes_mismatch
        throw_if (has_type open_document_entries declared && not (is_container detected zip))
            magic_bytes_mismatch
        ok tt
