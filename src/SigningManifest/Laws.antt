-- ===== src/SigningManifest/Laws.antt =====
-- What a manifest of a signing intent binds.
use kommunsign.Prelude.{
  ℕ, suc, ◌≤◌, ◌≡◌, refl, sym, ap, ◌∙◌, true, false, List, [], ◌∷◌, map, arith, ok, ok_injective,
  throw_if, >>-eq-ok, throw_if-eq-ok, nat_eq, string_eq, is_empty, includes, Distinct, All,
}
use mathlib.Core.List.{Permᴰ}
use kommunsign.Prelude.Keyed.{by_key, sort-Perm, sort_of_Perm, Distinct-along}
use kommunsign.Prelude.Sort.{sort}
use kommunsign.Prelude.Unique.{has_duplicates, duplicates_iff}
use kommunsign.Prelude.Text.{is_sha256}
use kommunsign.Prelude.Number.{is_safe_from}
use kommunsign.SigningManifest.{
  SigningIntentManifestDocument, SigningIntent, SigningIntentManifest, ordinal_of, version_of,
  manifest_empty, document_duplicated, check_document, check_documents, check_and_build,
  manifest_of, build_signing_intent_manifest,
}

-- `first + 1`, `first + 2`, and so on.
abbrev pub Counts : ℕ → List ℕ → Type 0
Counts first [] = Unit
Counts first (n ∷ ns) = (n ≡ suc first) × Counts (suc first) ns

pub record IsWhole (document : SigningIntentManifestDocument) : Type 0 where
  pub digest : is_sha256 document.document_sha256 ≡ true
  pub size : is_safe_from 1 document.byte_size ≡ true

check_sound :
    (index : ℕ) (documents : List SigningIntentManifestDocument)
    → check_documents index documents ≡ ok tt
    → Counts index (map ordinal_of documents) × All IsWhole documents
unfolding check_documents check_document
check_sound index [] h = (tt, tt)
check_sound index (d ∷ ds) h =
    let (here, later) = >>-eq-ok (check_document index d) (check_documents (suc index) ds) h in
    let (counted, whole) = check_sound (suc index) ds later in
    (
      (ground (arith, here), counted),
      (record { digest = ground (arith, here); size = ground (arith, here) }, whole),
    )

Counts-above : (first k : ℕ) (ns : List ℕ) → Counts first ns → k ≤ first → includes ns k ≡ false
Counts-above first k [] c le = refl
Counts-above first k (n ∷ ns) c le =
    ground (arith, c.0, Counts-above (suc first) k ns c.1 (omega (arith, le)))

Counts-Distinct : (first : ℕ) (ns : List ℕ) → Counts first ns → Distinct ns
Counts-Distinct first [] c = tt
Counts-Distinct first (n ∷ ns) c =
    (Counts-above (suc first) n ns c.1 (omega (arith, c.0)), Counts-Distinct (suc first) ns c.1)

built :
    (input : SigningIntent) (documents : List SigningIntentManifestDocument)
    {manifest : SigningIntentManifest}
    → check_and_build input documents ≡ ok manifest
    → (Counts 0 (map ordinal_of documents) × All IsWhole documents)
      × Distinct (map version_of documents)
      × (manifest ≡ manifest_of input documents)
unfolding check_and_build
built input documents h =
    let (checked, h1) = >>-eq-ok (check_documents 0 documents) _ h in
    let (single, h2) =
      >>-eq-ok (throw_if (has_duplicates (map version_of documents)) document_duplicated) _ h1 in
    (
      check_sound 0 documents checked,
      (duplicates_iff (map version_of documents)).0
          (throw_if-eq-ok (has_duplicates (map version_of documents)) document_duplicated single),
      sym (ok_injective h2),
    )

-- A manifest that is built binds exactly the documents of the intent, at least one, numbered 1, 2,
-- 3 and so on in its order, each with a well-formed digest and a size, no version of a document
-- twice.
pub manifest_sound :
    (input : SigningIntent) {manifest : SigningIntentManifest}
    → build_signing_intent_manifest input ≡ ok manifest
    → Permᴰ manifest.documents input.documents
      × (is_empty input.documents ≡ false)
      × Counts 0 (map ordinal_of manifest.documents)
      × All IsWhole manifest.documents
      × Distinct (map version_of manifest.documents)
unfolding build_signing_intent_manifest
manifest_sound input h =
    let sorted = sort (by_key ordinal_of) input.documents in
    let (some_document, h1) = >>-eq-ok (throw_if (is_empty input.documents) manifest_empty) _ h in
    let (checked, single, same) = built input sorted h1 in
    let documents = ap (λ (m : SigningIntentManifest). m.documents) same in
    rw documents (
      sort-Perm (by_key ordinal_of) input.documents,
      throw_if-eq-ok (is_empty input.documents) manifest_empty some_document,
      checked.0,
      checked.1,
      single,
    )

emptiness : {xs ys : List SigningIntentManifestDocument} → Permᴰ xs ys → is_empty xs ≡ is_empty ys
emptiness Permᴰ.nil = refl
emptiness (Permᴰ.cons e p) = refl
emptiness (Permᴰ.swap e e') = refl
emptiness (Permᴰ.trans p q) = emptiness p ∙ emptiness q

-- The manifest does not depend on the order in which the documents were read: any other order of
-- them gives the same manifest.
pub manifest_is_deterministic :
    (input : SigningIntent) (documents : List SigningIntentManifestDocument)
    {manifest : SigningIntentManifest}
    → build_signing_intent_manifest input ≡ ok manifest
    → Permᴰ input.documents documents
    → build_signing_intent_manifest (record input { documents = documents }) ≡ ok manifest
unfolding build_signing_intent_manifest check_and_build
manifest_is_deterministic input documents h p =
    let sorted = sort (by_key ordinal_of) input.documents in
    let (some_document, h1) = >>-eq-ok (throw_if (is_empty input.documents) manifest_empty) _ h in
    let (checked, single, same) = built input sorted h1 in
    let numbered =
      Distinct-along ordinal_of (sort-Perm (by_key ordinal_of) input.documents)
        (Counts-Distinct 0 (map ordinal_of sorted) checked.0) in
    rw (sym (emptiness p), sym (sort_of_Perm ordinal_of p numbered)) h
