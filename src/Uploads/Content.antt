-- ===== src/Uploads/Content.antt =====
-- What the leading bytes of a document must be for the type that it is declared with.
use kommunsign.Prelude.{
  ℕ, ◌≡◌, refl, sym, ◌∙◌, Bool, true, false, not, ◌&&◌, ◌||◌, List, [], ◌∷◌, arith, nat_beq,
  if◌then◌else◌, ◌==◌, ==_iff, Result, ok, ◌>>◌, throw_if,
}
use kommunsign.Prelude.Text.{codes, starts_with}
use kommunsign.Prelude.TextOrder.{codes_eq}
use kommunsign.Uploads.{
  microsoft_365_entries, open_document_entries, has_type, DetectedDocumentContainer, pdf, zip, rtf,
  unknown, detect_document_mime_type, is_container, UploadError, magic_bytes_mismatch, normalise,
  assert_magic_bytes_match,
}

-- The bytes that a format begins with.
abbrev pub begins : DetectedDocumentContainer → List ℕ → Bool
begins pdf bytes = starts_with (codes "%PDF-") bytes
begins zip bytes =
    starts_with (0x50 ∷ 0x4b ∷ 3 ∷ 4 ∷ []) bytes
    || (starts_with (0x50 ∷ 0x4b ∷ 5 ∷ 6 ∷ []) bytes
        || starts_with (0x50 ∷ 0x4b ∷ 7 ∷ 8 ∷ []) bytes)
begins rtf bytes = starts_with (codes "{\\rtf") bytes
begins unknown bytes = true

-- The chain of tests, of which at most one succeeds.
choice : Bool → Bool → Bool → DetectedDocumentContainer
choice p z r = if p then pdf else if z then zip else if r then rtf else unknown

module _ (p z r : Bool) (no_zip : (p && z) ≡ false) (no_rtf : ((p || z) && r) ≡ false) where
  choice_pdf : is_container (choice p z r) pdf ≡ p
  unfolding choice
  choice_pdf = ground arith

  choice_zip : is_container (choice p z r) zip ≡ z
  unfolding choice
  choice_zip = ground arith

  choice_rtf : is_container (choice p z r) rtf ≡ r
  unfolding choice
  choice_rtf = ground arith

one_first :
    (p k r s t u v w : Bool)
    → (p && k) ≡ false
    → (p && r) ≡ false
    → (k && r) ≡ false
    → ((p && s && (k && t || (k && u || k && v))) ≡ false)
      × (((p && s || (k && t || (k && u || k && v))) && (r && w)) ≡ false)
one_first p k r s t u v w h i j = (ground arith, ground arith)

-- No bytes begin as two formats do.
exclusive :
    (bytes : List ℕ)
    → ((begins pdf bytes && begins zip bytes) ≡ false)
      × (((begins pdf bytes || begins zip bytes) && begins rtf bytes) ≡ false)
exclusive [] = (refl, refl)
exclusive (b ∷ bytes) =
    one_first (nat_beq 37 b) (nat_beq 80 b) (nat_beq 123 b) (starts_with (codes "PDF-") bytes)
      (starts_with (0x4b ∷ 3 ∷ 4 ∷ []) bytes) (starts_with (0x4b ∷ 5 ∷ 6 ∷ []) bytes)
      (starts_with (0x4b ∷ 7 ∷ 8 ∷ []) bytes) (starts_with (codes "\\rtf") bytes) (ground arith)
      (ground arith) (ground arith)

-- What is detected is what the bytes begin with.
detection :
    (bytes : List ℕ)
    → (is_container (detect_document_mime_type bytes) pdf ≡ begins pdf bytes)
      × (is_container (detect_document_mime_type bytes) zip ≡ begins zip bytes)
      × (is_container (detect_document_mime_type bytes) rtf ≡ begins rtf bytes)
unfolding detect_document_mime_type choice
detection bytes =
    let (no_zip, no_rtf) = exclusive bytes in
    (
      choice_pdf (begins pdf bytes) (begins zip bytes) (begins rtf bytes) no_zip no_rtf,
      choice_zip (begins pdf bytes) (begins zip bytes) (begins rtf bytes) no_zip no_rtf,
      choice_rtf (begins pdf bytes) (begins zip bytes) (begins rtf bytes) no_zip no_rtf,
    )

-- The container that a type asks for.
pub data Declares : List ℕ → DetectedDocumentContainer → Type 0 where
  pdf_type : Declares (codes "application/pdf") pdf
  rtf_type : Declares (codes "application/rtf") rtf
  microsoft_365_type : (s : List ℕ) → has_type microsoft_365_entries s ≡ true → Declares s zip
  open_document_type : (s : List ℕ) → has_type open_document_entries s ≡ true → Declares s zip

four_checks : Bool → Bool → Bool → Bool → Result UploadError (Unit {0})
four_checks p r m o = do
  throw_if p magic_bytes_mismatch
  throw_if r magic_bytes_mismatch
  throw_if m magic_bytes_mismatch
  throw_if o magic_bytes_mismatch
  ok tt

passed :
    (p r m o : Bool)
    → four_checks p r m o ≡ ok tt
    → (p ≡ false) × (r ≡ false) × (m ≡ false) × (o ≡ false)
unfolding four_checks
passed p r m o h = ground arith

held : (a b : Bool) → (a && not b) ≡ false → a ≡ true → b ≡ true
held a b h i = ground arith

begins_so :
    (c : DetectedDocumentContainer) (bytes : List ℕ)
    → is_container (detect_document_mime_type bytes) c ≡ true
    → begins c bytes ≡ true
begins_so pdf bytes h = sym (detection bytes).0 ∙ h
begins_so zip bytes h = sym (detection bytes).1 ∙ h
begins_so rtf bytes h = sym (detection bytes).2 ∙ h
begins_so unknown bytes h = refl

as_declared :
    (s : List ℕ) (c detected : DetectedDocumentContainer)
    → Declares s c
    → (s == codes "application/pdf" && not (is_container detected pdf)) ≡ false
    → (s == codes "application/rtf" && not (is_container detected rtf)) ≡ false
    → (has_type microsoft_365_entries s && not (is_container detected zip)) ≡ false
    → (has_type open_document_entries s && not (is_container detected zip)) ≡ false
    → is_container detected c ≡ true
as_declared s pdf detected pdf_type p r m o =
    held (s == codes "application/pdf") (is_container detected pdf) p ((==_iff s s).1 refl)
as_declared s rtf detected rtf_type p r m o =
    held (s == codes "application/rtf") (is_container detected rtf) r ((==_iff s s).1 refl)
as_declared s zip detected (microsoft_365_type t h) p r m o =
    held (has_type microsoft_365_entries t) (is_container detected zip) m h
as_declared s zip detected (open_document_type t h) p r m o =
    held (has_type open_document_entries t) (is_container detected zip) o h
as_declared s unknown detected d p r m o = elim d [ ]

-- A document that is let pass begins as its declared type asks: a PDF with %PDF-, an RTF text with
-- {\rtf, and an office document with the signature of a ZIP archive.
pub content_sound :
    (lower : List ℕ → List ℕ) (declared bytes : List ℕ) (c : DetectedDocumentContainer)
    → Declares (normalise lower declared) c
    → assert_magic_bytes_match lower declared bytes ≡ ok tt
    → begins c bytes ≡ true
unfolding assert_magic_bytes_match four_checks
content_sound lower declared bytes c d h =
    let s = normalise lower declared in
    let detected = detect_document_mime_type bytes in
    let (p, r, m, o) =
      passed (s == codes "application/pdf" && not (is_container detected pdf))
        (s == codes "application/rtf" && not (is_container detected rtf))
        (has_type microsoft_365_entries s && not (is_container detected zip))
        (has_type open_document_entries s && not (is_container detected zip)) h in
    begins_so c bytes (as_declared s c detected d p r m o)
