-- ===== src/Tests/Packages.antt =====
-- Runs of packages/evidence, and its theorems applied.
use kommunsign.Prelude.{ℕ, String, ◌≡◌, refl, Bool, true, List, [], ◌∷◌, All}
use kommunsign.Evidence.{
  EvidenceFile, EvidenceManifest, file_at, has_entry, create_evidence_manifest, check_entries,
  verify_evidence_files, size_mismatch, hash_mismatch, unexpected_file,
}
use kommunsign.Evidence.Laws.{IsMatched, evidence_roundtrip, evidence_sound}

-- A digest that tells empty files from others, and an order that leaves the files as they are.
abbrev digest : List ℕ → String
digest [] = "empty"
digest (b ∷ bytes) = "other"

abbrev path_le : String → String → Bool
path_le a b = true

abbrev report : EvidenceFile
report = record { path = "report.json"; bytes = 1 ∷ 2 ∷ []; media_type = "application/json" }

abbrev seal : EvidenceFile
seal = record { path = "seal.der"; bytes = []; media_type = "application/octet-stream" }

abbrev manifest : EvidenceManifest (List String)
manifest = create_evidence_manifest digest path_le "c" (report ∷ seal ∷ []) [] "2026-01-01"

steps : Unit {0}
unfolding file_at create_evidence_manifest check_entries verify_evidence_files
steps = tt

whole_run : verify_evidence_files digest path_le manifest (seal ∷ report ∷ []) ≡ []
unfolding steps
whole_run = refl

changed_run :
    verify_evidence_files digest path_le manifest
      (seal ∷ record report { bytes = [] } ∷ record seal { path = "x" } ∷ [])
    ≡ size_mismatch "report.json" ∷ hash_mismatch "report.json" ∷ unexpected_file "x" ∷ []
unfolding steps
changed_run = refl

evidence_roundtrip_example : verify_evidence_files digest path_le manifest (report ∷ seal ∷ []) ≡ []
evidence_roundtrip_example =
    evidence_roundtrip digest path_le "c" "2026-01-01" (report ∷ seal ∷ []) [] (refl, (refl, tt))

evidence_sound_example :
    All (IsMatched digest path_le (seal ∷ report ∷ [])) manifest.entries
    × All (λ f. has_entry manifest.entries f ≡ true) (seal ∷ report ∷ [])
evidence_sound_example = evidence_sound digest path_le manifest (seal ∷ report ∷ []) whole_run
