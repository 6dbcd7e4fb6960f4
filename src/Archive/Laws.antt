-- ===== src/Archive/Laws.antt =====
-- What `assertArchivable` accepts.
use kommunsign.Prelude.{
  ◌≡◌, ◌↔◌, refl, true, false, arith, ok, throw_if, for_each, >>-eq-ok, throw_if-eq-ok,
  for_each-All, for_each-ok, All, All-map, if◌then◌else◌, is_none, ◌==◌, ==_iff, string_eq,
  includes, is_empty, Bool-cases, inl, inr,
}
use kommunsign.Prelude.Text.{is_missing}
use kommunsign.Archive.{
  ArchiveCase, ArchiveSignatureEvidence, electronic_signature, decision_mode_eq, case_not_closed,
  document_missing, audit_trail_missing, profile_not_verified, signature_evidence_missing,
  check_profile, check_evidence, assert_signed, identity_signers, check_identity, assert_archivable,
}

-- A signature with its artifact and its validation report.
pub record IsEvidenced (signature : ArchiveSignatureEvidence) : Type 0 where
  pub artifact : is_missing signature.signature_artifact_sha256 ≡ false
  pub report : is_missing signature.validation_report_sha256 ≡ false

-- What the code asks of a case: it is closed, its documents are in a verified preservation format,
-- each of its signatures is traced to an identity, an electronic signature is proved, and it has an
-- audit trail. That an identity has a signature is not asked.
pub record IsArchivable (archive_case : ArchiveCase) : Type 0 where
  pub closed : is_none archive_case.closed_at ≡ false
  pub some_document : is_empty archive_case.documents ≡ false
  pub verified : All (λ d. is_none d.verified_profile ≡ false) archive_case.documents
  pub signed :
      archive_case.decision_mode ≡ electronic_signature
      → (is_empty archive_case.signatures ≡ false) × All IsEvidenced archive_case.signatures
  pub traced :
      All (λ s. includes (identity_signers archive_case) s.signer_id ≡ true) archive_case.signatures
  pub trail : is_none archive_case.audit_trail_sha256 ≡ false

signed_sound :
    (c : ArchiveCase)
    → assert_signed c ≡ ok tt
    → (is_empty c.signatures ≡ false) × All IsEvidenced c.signatures
unfolding assert_signed
signed_sound c h =
    let (some_signature, checked) =
      >>-eq-ok (throw_if (is_empty c.signatures) signature_evidence_missing)
        (for_each c.signatures check_evidence) h in
    (
      throw_if-eq-ok (is_empty c.signatures) signature_evidence_missing some_signature,
      All-map (λ s e. record { artifact = ground arith; report = ground arith }) c.signatures
          (for_each-All c.signatures check_evidence checked),
    )

signed_complete :
    (c : ArchiveCase)
    → is_empty c.signatures ≡ false
    → All IsEvidenced c.signatures
    → assert_signed c ≡ ok tt
unfolding assert_signed
signed_complete c e evidenced = rw e (
    for_each-ok c.signatures check_evidence
      (All-map (λ s v. ground (arith, v.artifact, v.report)) c.signatures evidenced))

mode_checked :
    (c : ArchiveCase)
    → (if c.decision_mode == electronic_signature then assert_signed c else ok tt) ≡ ok tt
    → c.decision_mode ≡ electronic_signature
    → assert_signed c ≡ ok tt
mode_checked c h e = ground (arith, h, e)

mode_accepted :
    (c : ArchiveCase)
    → (c.decision_mode ≡ electronic_signature
        → (is_empty c.signatures ≡ false) × All IsEvidenced c.signatures)
    → (if c.decision_mode == electronic_signature then assert_signed c else ok tt) ≡ ok tt
mode_accepted c signed = elim (Bool-cases (c.decision_mode == electronic_signature)) [
  | inl electronic ↦
      let (some_signature, evidenced) =
        signed ((==_iff c.decision_mode electronic_signature).0 electronic) in
      rw electronic (signed_complete c some_signature evidenced)
  | inr approval ↦ rw approval refl
]

accepted : (c : ArchiveCase) → assert_archivable c ≡ ok tt → IsArchivable c
unfolding assert_archivable
accepted c h =
    let (closed, h1) = >>-eq-ok (throw_if (is_none c.closed_at) case_not_closed) _ h in
    let (documents, h2) = >>-eq-ok (throw_if (is_empty c.documents) document_missing) _ h1 in
    let (profiles, h3) = >>-eq-ok (for_each c.documents check_profile) _ h2 in
    let (signed, h4) =
      >>-eq-ok (if c.decision_mode == electronic_signature then assert_signed c else ok tt) _ h3 in
    let (traced, trail) = >>-eq-ok (for_each c.signatures (check_identity c)) _ h4 in
    record {
      closed = throw_if-eq-ok (is_none c.closed_at) case_not_closed closed;
      some_document = throw_if-eq-ok (is_empty c.documents) document_missing documents;
      verified =
          All-map (λ d. throw_if-eq-ok (is_none d.verified_profile) profile_not_verified)
            c.documents (for_each-All c.documents check_profile profiles);
      signed = λ e. signed_sound c (mode_checked c signed e);
      traced =
          All-map (λ s e. ground (arith, e)) c.signatures
            (for_each-All c.signatures (check_identity c) traced);
      trail = throw_if-eq-ok (is_none c.audit_trail_sha256) audit_trail_missing trail;
    }

accepts : (c : ArchiveCase) → IsArchivable c → assert_archivable c ≡ ok tt
unfolding assert_archivable
accepts c a =
    let profiles =
      for_each-ok c.documents check_profile
        (All-map (λ d v. ground (arith, v)) c.documents a.verified) in
    let traced =
      for_each-ok c.signatures (check_identity c)
        (All-map (λ s v. ground (arith, v)) c.signatures a.traced) in
    rw (a.closed, a.some_document, profiles, mode_accepted c a.signed, traced, a.trail) refl

-- The cases that are let pass are exactly those that are closed, have documents, all in a verified
-- preservation format, trace each signature to an identity, prove an electronic signature by
-- artifacts and validation reports, and have an audit trail; an identity without a signature is let
-- pass.
pub IsArchivable-iff :
    (archive_case : ArchiveCase)
    → (assert_archivable archive_case ≡ ok tt) ↔ IsArchivable archive_case
IsArchivable-iff archive_case = (accepted archive_case, accepts archive_case)
