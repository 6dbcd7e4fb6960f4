-- ===== src/Tests/Signing.antt =====
-- Runs of packages/signing-engine, and its theorems applied.
use kommunsign.Prelude.{◌≡◌, refl, false, [], ◌∷◌, map, ok, err, is_empty, Distinct, All, string_eq}
use mathlib.Core.List.{Permᴰ}
use kommunsign.Prelude.Text.{is_sha256}
use kommunsign.Prelude.Number.{whole}
use kommunsign.SigningManifest.{
  SigningIntentManifestDocument, SigningIntent, SigningIntentManifest, manifest_of, ordinal_of,
  version_of, ordinals_not_contiguous, check_document, check_documents, check_and_build,
  build_signing_intent_manifest,
}
use kommunsign.SigningManifest.Laws.{Counts, IsWhole, manifest_sound, manifest_is_deterministic}

abbrev first : SigningIntentManifestDocument
first = record {
  ordinal = 1;
  document_version_id = "v";
  document_sha256 = "e3b0c44298fc1c149afbf4c8996fb92427ae41e4649b934ca495991b7852b855";
  display_name = "avtal.pdf";
  mime_type = "application/pdf";
  profile = "PDF/A-2b";
  byte_size = whole 10;
}

abbrev second : SigningIntentManifestDocument
second = record first { ordinal = 2; document_version_id = "w" }

-- Read in the wrong order.
abbrev intent : SigningIntent
intent = record {
  tenant_id = "t";
  signature_case_id = "c";
  signing_intent_id = "i";
  signer_id = "s";
  documents = second ∷ first ∷ [];
}

abbrev manifest : SigningIntentManifest
manifest = manifest_of intent (first ∷ second ∷ [])

manifest_run : build_signing_intent_manifest intent ≡ ok manifest
unfolding build_signing_intent_manifest check_and_build check_documents check_document is_sha256
manifest_run = refl

gap_run :
    build_signing_intent_manifest (record intent { documents = second ∷ [] })
    ≡ err ordinals_not_contiguous
unfolding build_signing_intent_manifest check_and_build check_documents check_document
gap_run = refl

manifest_sound_example :
    Permᴰ (first ∷ second ∷ []) (second ∷ first ∷ [])
    × (is_empty intent.documents ≡ false)
    × Counts 0 (map ordinal_of (first ∷ second ∷ []))
    × All IsWhole (first ∷ second ∷ [])
    × Distinct (map version_of (first ∷ second ∷ []))
manifest_sound_example = manifest_sound intent manifest_run

manifest_is_deterministic_example :
    build_signing_intent_manifest (record intent { documents = first ∷ second ∷ [] }) ≡ ok manifest
manifest_is_deterministic_example =
    manifest_is_deterministic intent (first ∷ second ∷ []) manifest_run (Permᴰ.swap refl refl)
