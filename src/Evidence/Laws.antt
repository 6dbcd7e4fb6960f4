-- ===== src/Evidence/Laws.antt =====
-- What the check of an evidence package shows.
use kommunsign.Prelude.{
  ℕ, String, ◌≡◌, refl, ap, ◌∙◌, Bool, true, false, not, Option, none, some, List, [], ◌∷◌, ◌++◌,
  map, arith, if◌then◌else◌, filter-eq-nil_iff, length, ◌==◌, ◌!=◌, ==_iff, ==-self, nat_eq,
  string_eq, includes, Distinct, All, All-map,
}
use kommunsign.Prelude.Sort.{sort, any-sort, All-sort}
use kommunsign.Evidence.{
  EvidenceFile, EvidenceManifestEntry, EvidenceManifest, Failure, size_mismatch, hash_mismatch,
  file_at, has_entry, unexpected, entry_of, entry_le, create_evidence_manifest, check_file,
  check_entries, verify_evidence_files,
}

abbrev pub paths_of : List EvidenceFile → List String
paths_of files = map (λ (file : EvidenceFile). file.path) files

absent :
    (path : String) (files : List EvidenceFile)
    → includes (paths_of files) path ≡ false
    → file_at path files ≡ none
unfolding file_at
absent path [] h = refl
absent path (f ∷ fs) h = ground (arith, h, absent path fs)

kept :
    (f : EvidenceFile) (path : String) (files : List EvidenceFile) (g : EvidenceFile)
    → file_at path files ≡ some g
    → file_at path (f ∷ files) ≡ some g
unfolding file_at
kept f path files g h = rw h refl

found_first :
    (f : EvidenceFile) (files : List EvidenceFile)
    → file_at f.path files ≡ none
    → file_at f.path (f ∷ files) ≡ some f
unfolding file_at
found_first f files h = rw (h, ==-self f.path) refl

-- With no path twice, every file is found under its path.
found :
    (files : List EvidenceFile)
    → Distinct (paths_of files)
    → All (λ f. file_at f.path files ≡ some f) files
found [] d = tt
found (f ∷ fs) d = (
  found_first f fs (absent f.path fs d.0),
  All-map (λ g h. kept f g.path fs g h) fs (found fs d.1),
)

append_nil : {A : Type 0} (xs ys : List A) → xs ++ ys ≡ [] → (xs ≡ []) × (ys ≡ [])
append_nil [] ys h = (refl, h)
append_nil (x ∷ xs) ys h = absurd (cc)

All-mapped :
    {A B : Type 0} (P : B → Type 0) (f : A → B) (xs : List A)
    → All (λ x. P (f x)) xs
    → All P (map f xs)
All-mapped P f [] h = tt
All-mapped P f (x ∷ xs) h = (h.0, All-mapped P f xs h.1)

map_nil : {A B : Type 0} (f : A → B) (xs : List A) → map f xs ≡ [] → xs ≡ []
map_nil f [] h = refl
map_nil f (x ∷ xs) h = absurd (cc)

no_failure :
    (fits : Bool) (failure : Failure) → (if not fits then failure ∷ [] else []) ≡ [] → fits ≡ true
no_failure true failure h = refl
no_failure false failure h = absurd (cc)

module _ (digest : List ℕ → String) (path_le : String → String → Bool) where
  -- An entry of the manifest and the file that stands under its path.
  pub record IsMatched (files : List EvidenceFile) (entry : EvidenceManifestEntry) : Type 0 where
    pub file : EvidenceFile
    pub at_path : file_at entry.path files ≡ some file
    pub size : length file.bytes ≡ entry.bytes
    pub same_digest : digest file.bytes ≡ entry.sha256

  listed :
      (files : List EvidenceFile)
      → All (λ f. has_entry (map (entry_of digest path_le) files) f ≡ true) files
  listed [] = tt
  listed (f ∷ fs) = (rw (==-self f.path) refl, All-map (λ g h. ground (arith, h)) fs (listed fs))

  nothing_unexpected :
      (files : List EvidenceFile)
      → unexpected (sort (entry_le digest path_le) (map (entry_of digest path_le) files)) files ≡ []
  nothing_unexpected files =
      let entries = map (entry_of digest path_le) files in
      (filter-eq-nil_iff (λ f. not (has_entry (sort (entry_le digest path_le) entries) f)) files).1
        (All-map
          (λ f h. ap not (
            any-sort (entry_le digest path_le) (λ (e : EvidenceManifestEntry). e.path == f.path)
              entries
            ∙ h))
          files (listed files))

  file_fits :
      (file : EvidenceFile)
      → check_file digest path_le (entry_of digest path_le file) (some file) ≡ []
  file_fits file = rw (==-self (length file.bytes), ==-self (digest file.bytes)) refl

  entries_fit :
      (entries : List EvidenceManifestEntry) (files : List EvidenceFile)
      → All (λ e. check_file digest path_le e (file_at e.path files) ≡ []) entries
      → check_entries digest path_le entries files ≡ []
  unfolding check_entries
  entries_fit [] files h = refl
  entries_fit (e ∷ es) files h = rw (h.0, entries_fit es files h.1) refl

  -- A package that is made of files with different paths passes its own check, whatever the digest.
  pub evidence_roundtrip :
      {M : Type 0} (signature_case_id created_at : String) (files : List EvidenceFile)
      (metadata : M)
      → Distinct (paths_of files)
      → verify_evidence_files digest path_le
          (create_evidence_manifest digest path_le signature_case_id files metadata created_at)
          files
        ≡ []
  unfolding verify_evidence_files create_evidence_manifest
  evidence_roundtrip signature_case_id created_at files metadata d =
      let fits =
        entries_fit (sort (entry_le digest path_le) (map (entry_of digest path_le) files)) files (
          All-sort (entry_le digest path_le)
            (λ e. check_file digest path_le e (file_at e.path files) ≡ [])
            (map (entry_of digest path_le) files)
            (All-mapped (λ e. check_file digest path_le e (file_at e.path files) ≡ [])
              (entry_of digest path_le) files
              (All-map (λ f h. rw h (file_fits f)) files (found files d)))) in
      rw (fits, nothing_unexpected files) refl

  matched :
      (files : List EvidenceFile) (entry : EvidenceManifestEntry) (here : Option EvidenceFile)
      → file_at entry.path files ≡ here
      → check_file digest path_le entry here ≡ []
      → IsMatched files entry
  matched files entry none at h = absurd (cc)
  matched files entry (some file) at h =
      let (size, digests) =
        append_nil (if length file.bytes != entry.bytes then size_mismatch entry.path ∷ [] else [])
          (if digest file.bytes != entry.sha256 then hash_mismatch entry.path ∷ [] else []) h in
      record {
        file = file;
        at_path = at;
        size =
            (==_iff (length file.bytes) entry.bytes).0
              (no_failure _ (size_mismatch entry.path) size);
        same_digest =
            (==_iff (digest file.bytes) entry.sha256).0
              (no_failure _ (hash_mismatch entry.path) digests);
      }

  all-IsMatched :
      (entries : List EvidenceManifestEntry) (files : List EvidenceFile)
      → check_entries digest path_le entries files ≡ []
      → All (IsMatched files) entries
  unfolding check_entries
  all-IsMatched [] files h = tt
  all-IsMatched (e ∷ es) files h =
      let (here, later) = append_nil _ _ h in
      (matched files e (file_at e.path files) refl here, all-IsMatched es files later)

  -- A package that passes has, for each entry of its manifest, a file of that path, size and digest,
  -- and no file that the manifest does not name.
  pub evidence_sound :
      {M : Type 0} (manifest : EvidenceManifest M) (files : List EvidenceFile)
      → verify_evidence_files digest path_le manifest files ≡ []
      → All (IsMatched files) manifest.entries
        × All (λ f. has_entry manifest.entries f ≡ true) files
  unfolding verify_evidence_files
  evidence_sound manifest files h =
      let (entries, extra) = append_nil _ _ h in
      (
        all-IsMatched manifest.entries files entries,
        All-map (λ f e. ground (arith, e)) files
            ((filter-eq-nil_iff (λ f. not (has_entry manifest.entries f)) files).0
              (map_nil _ _ extra)),
      )
