-- ===== src/Evidence.antt =====
-- packages/evidence/src/index.ts: the manifest of an evidence package, and the check of the files
-- against it.
pub mod Laws
use kommunsign.Prelude.{
  ℕ, String, Bool, not, Option, none, some, List, [], ◌∷◌, ◌++◌, map, if◌then◌else◌, any, filter,
  length, ◌==◌, ◌!=◌, nat_eq, string_eq,
}
use kommunsign.Prelude.Sort.{sort}

pub record EvidenceFile : Type 0 where
  pub path : String
  pub bytes : List ℕ
  pub media_type : String

pub record EvidenceManifestEntry : Type 0 where
  pub path : String
  pub sha256 : String
  pub bytes : ℕ
  pub media_type : String

-- The metadata, any canonical JSON value, are only carried along.
pub record EvidenceManifest (M : Type 0) : Type 0 where
  pub schema : String
  pub created_at : String
  pub signature_case_id : String
  pub entries : List EvidenceManifestEntry
  pub metadata : M

pub data Failure : Type 0 where
  missing_file size_mismatch hash_mismatch unexpected_file : String → Failure

-- `byPath.get(path)`: of the files with a path, a map keeps the last.
abbrev pub or_else : Option EvidenceFile → Option EvidenceFile → Option EvidenceFile
or_else (some file) other = some file
or_else none other = other

unfoldable pub file_at : String → List EvidenceFile → Option EvidenceFile
file_at path [] = none
file_at path (file ∷ files) =
    or_else (file_at path files) (if file.path == path then some file else none)

abbrev pub has_entry : List EvidenceManifestEntry → EvidenceFile → Bool
has_entry entries file = any (λ (entry : EvidenceManifestEntry). entry.path == file.path) entries

abbrev pub unexpected : List EvidenceManifestEntry → List EvidenceFile → List EvidenceFile
unexpected entries files = filter (λ file. not (has_entry entries file)) files

-- `digest` is the SHA-256 of Web Crypto, in hexadecimal, and `path_le` the order of `localeCompare`.
module _ (digest : List ℕ → String) (path_le : String → String → Bool) where
  abbrev pub entry_of : EvidenceFile → EvidenceManifestEntry
  entry_of file = record {
    path = file.path;
    sha256 = digest file.bytes;
    bytes = length file.bytes;
    media_type = file.media_type;
  }

  abbrev pub entry_le : EvidenceManifestEntry → EvidenceManifestEntry → Bool
  entry_le a b = path_le a.path b.path

  unfoldable pub create_evidence_manifest :
      {M : Type 0} → String → List EvidenceFile → M → String → EvidenceManifest M
  create_evidence_manifest signature_case_id files metadata created_at = record {
    schema = "kommunsign.evidence-package.v1";
    created_at = created_at;
    signature_case_id = signature_case_id;
    entries = sort entry_le (map entry_of files);
    metadata = metadata;
  }

  abbrev pub check_file : EvidenceManifestEntry → Option EvidenceFile → List Failure
  check_file entry none = missing_file entry.path ∷ []
  check_file entry (some file) =
      (if length file.bytes != entry.bytes then size_mismatch entry.path ∷ [] else [])
      ++ (if digest file.bytes != entry.sha256 then hash_mismatch entry.path ∷ [] else [])

  -- The loop over the entries.
  unfoldable pub check_entries : List EvidenceManifestEntry → List EvidenceFile → List Failure
  check_entries [] files = []
  check_entries (entry ∷ entries) files =
      check_file entry (file_at entry.path files) ++ check_entries entries files

  unfoldable pub verify_evidence_files :
      {M : Type 0} → EvidenceManifest M → List EvidenceFile → List Failure
  verify_evidence_files manifest files =
      check_entries manifest.entries files
      ++ map (λ (file : EvidenceFile). unexpected_file file.path)
          (unexpected manifest.entries files)
