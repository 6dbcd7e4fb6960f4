-- ===== src/SigningManifest.antt =====
-- packages/signing-engine/src/manifest.ts: the set of documents that a signer consents to.
pub mod Laws
use kommunsign.Prelude.{
  ℕ, suc, String, Bool, not, ◌||◌, Option, none, some, List, [], ◌∷◌, map, Result, ok, err, ◌>>=◌,
  ◌>>◌, throw_if, ◌!=◌, nat_eq, string_eq, length, is_empty,
}
use kommunsign.Prelude.Keyed.{by_key}
use kommunsign.Prelude.Sort.{sort}
use kommunsign.Prelude.Unique.{has_duplicates}
use kommunsign.Prelude.Text.{is_sha256}
use kommunsign.Prelude.Number.{Number, is_safe_from}

pub record SigningIntentManifestDocument : Type 0 where
  pub ordinal : ℕ
  pub document_version_id : String
  pub document_sha256 : String
  pub display_name : String
  pub mime_type : String
  pub profile : String
  pub byte_size : Number

pub record SigningIntent : Type 0 where
  pub tenant_id : String
  pub signature_case_id : String
  pub signing_intent_id : String
  pub signer_id : String
  pub documents : List SigningIntentManifestDocument

pub record SigningIntentManifest : Type 0 where
  pub schema : String
  pub tenant_id : String
  pub signature_case_id : String
  pub signing_intent_id : String
  pub signer_id : String
  pub documents : List SigningIntentManifestDocument

pub data ManifestError : Type 0 where
  manifest_empty ordinals_not_contiguous document_hash_invalid : ManifestError
  document_size_invalid document_duplicated : ManifestError

abbrev pub manifest_schema : String
manifest_schema = "kommunsign.signing-intent-manifest.v1"

abbrev pub ordinal_of : SigningIntentManifestDocument → ℕ
ordinal_of document = document.ordinal

abbrev pub version_of : SigningIntentManifestDocument → String
version_of document = document.document_version_id

-- The body of the loop over the sorted documents.
unfoldable pub check_document : ℕ → SigningIntentManifestDocument → Result ManifestError (Unit {0})
check_document index document = do
  throw_if (document.ordinal != suc index) ordinals_not_contiguous
  throw_if (not (is_sha256 document.document_sha256)) document_hash_invalid
  throw_if (not (is_safe_from 1 document.byte_size)) document_size_invalid

unfoldable pub check_documents :
    ℕ → List SigningIntentManifestDocument → Result ManifestError (Unit {0})
check_documents index [] = ok tt
check_documents index (document ∷ documents) =
    check_document index document >> check_documents (suc index) documents

abbrev pub manifest_of : SigningIntent → List SigningIntentManifestDocument → SigningIntentManifest
manifest_of input documents = record {
  schema = manifest_schema;
  tenant_id = input.tenant_id;
  signature_case_id = input.signature_case_id;
  signing_intent_id = input.signing_intent_id;
  signer_id = input.signer_id;
  documents = documents;
}

unfoldable pub check_and_build :
    SigningIntent → List SigningIntentManifestDocument → Result ManifestError SigningIntentManifest
check_and_build input documents = do
  check_documents 0 documents
  throw_if (has_duplicates (map version_of documents)) document_duplicated
  ok (manifest_of input documents)

unfoldable pub build_signing_intent_manifest :
    SigningIntent → Result ManifestError SigningIntentManifest
unfolding check_and_build
build_signing_intent_manifest input =
    throw_if (is_empty input.documents) manifest_empty
    >> check_and_build input (sort (by_key ordinal_of) input.documents)
