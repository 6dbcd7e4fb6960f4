-- ===== src/Pades/Refusal.antt =====
-- A refusal names what is missing.
use kommunsign.Prelude.{
  String, ◌≡◌, refl, subst, Bool, true, false, not, ◌&&◌, ◌||◌, Option, none, some, is_none, arith,
  ◌⊎◌, inl, inr, is_empty, includes, if◌then◌else◌, Result, err, ◌>>=◌, ◌>>◌, throw_if,
}
use kommunsign.Prelude.Text.{is_missing}
use kommunsign.Pades.{
  PadesLevel, level_b, level_t, level_lt, level_lta, RequiredPadesLevel, no_level, at_least,
  ValidationResult, total_passed, indeterminate, total_failed, result_eq, SignatureEvidence,
  PadesAdmissionPolicy, PadesRejectionCode, signature_missing, certificate_missing, chain_missing,
  not_validated, validation_failed, validation_result_not_allowed, timestamp_missing,
  revocation_evidence_missing, trust_list_missing, archive_timestamp_missing, level_not_reached,
  not_required_by_policy, attained_pades_level, level_at_least, is_long_term, is_archival,
  missing_evidence_code, PadesAdmission, attained_or, admit_level, admit_at, admit_for,
  admit_pades_signature,
}

-- What a refusal says of the evidence.
abbrev pub Missing : PadesAdmissionPolicy → SignatureEvidence → PadesRejectionCode → Type 0
Missing policy e signature_missing = is_missing e.signed_revision_sha256 ≡ true
Missing policy e certificate_missing = is_missing e.signing_certificate_reference ≡ true
Missing policy e chain_missing = is_missing e.certificate_chain_reference ≡ true
Missing policy e timestamp_missing = is_missing e.signature_timestamp_reference ≡ true
Missing policy e revocation_evidence_missing = is_empty e.revocation_evidence_references ≡ true
Missing policy e trust_list_missing = is_missing e.trust_list_snapshot_reference ≡ true
Missing policy e archive_timestamp_missing = is_missing e.archive_timestamp_reference ≡ true
Missing policy e not_validated = (is_none e.validation_result || is_none e.validated_at) ≡ true
Missing policy e validation_failed = e.validation_result ≡ some total_failed
Missing policy e validation_result_not_allowed =
    (r : ValidationResult) × (e.validation_result ≡ some r)
    × (includes policy.allowed_validation_results r ≡ false)
Missing policy e not_required_by_policy = policy.required_pades_level ≡ no_level
Missing policy e level_not_reached = ⊥

-- The level is at least the one that is required.
abbrev reaches : Option PadesLevel → PadesLevel → Bool
reaches none required = false
reaches (some a) required = level_at_least a required

-- With all that the ladder of a refusal asks for, the level is reached.
module _ (e : SignatureEvidence) (signed : is_missing e.signed_revision_sha256 ≡ false)
    (certified : is_missing e.signing_certificate_reference ≡ false)
    (chained : is_missing e.certificate_chain_reference ≡ false)
    (stamped : is_missing e.signature_timestamp_reference ≡ false) where
  all_present :
      (required : PadesLevel)
      → (is_long_term required && is_empty e.revocation_evidence_references) ≡ false
      → (is_long_term required && is_missing e.trust_list_snapshot_reference) ≡ false
      → (is_archival required && is_missing e.archive_timestamp_reference) ≡ false
      → reaches (attained_pades_level e) required ≡ true
  unfolding attained_pades_level
  all_present level_b r l a = ground arith
  all_present level_t r l a = ground arith
  all_present level_lt r l a = ground arith
  all_present level_lta r l a = ground arith

and_true : (b c : Bool) → (b && c) ≡ true → c ≡ true
and_true b c h = ground arith

either {ℓ} :
    {A : Type 0} (P : A → Type ℓ) (b : Bool) (x y : A)
    → (b ≡ true → P x)
    → (b ≡ false → P y)
    → P (if b then x else y)
either P true x y left right = left refl
either P false x y left right = right refl

Missing-named :
    (policy : PadesAdmissionPolicy) (e : SignatureEvidence) (required : PadesLevel)
    → reaches (attained_pades_level e) required ≡ false
    → Missing policy e (missing_evidence_code e required)
unfolding missing_evidence_code
Missing-named policy e required h =
    let step = either (Missing policy e) in
    step (is_missing e.signed_revision_sha256) signature_missing _ (λ m. m)
      λ signed.
        step (is_missing e.signing_certificate_reference) certificate_missing _ (λ m. m)
          λ certified.
            step (is_missing e.certificate_chain_reference) chain_missing _ (λ m. m)
              λ chained.
                step (is_missing e.signature_timestamp_reference) timestamp_missing _ (λ m. m)
                  λ stamped.
                    step (is_long_term required && is_empty e.revocation_evidence_references)
                      revocation_evidence_missing _ (λ m. and_true (is_long_term required) _ m)
                      λ revoked.
                        step (is_long_term required && is_missing e.trust_list_snapshot_reference)
                          trust_list_missing _ (λ m. and_true (is_long_term required) _ m)
                          λ trusted.
                            step (is_archival required && is_missing e.archive_timestamp_reference)
                              archive_timestamp_missing _ (λ m. and_true (is_archival required) _ m)
                              λ archived.
                                let all =
                                  all_present e signed certified chained stamped required revoked
                                    trusted archived in
                                absurd (cc)

refused_by :
    (P : PadesRejectionCode → Type 0) (test : Bool) (code : PadesRejectionCode)
    (rest : Result PadesRejectionCode PadesAdmission) (c : PadesRejectionCode)
    → (test ≡ true → P code)
    → (test ≡ false → rest ≡ err c → P c)
    → (throw_if test code >> rest) ≡ err c
    → P c
refused_by P true code rest c left right h = let e : code ≡ c = cc in subst P e (left refl)
refused_by P false code rest c left right h = right refl h

at_level :
    (P : PadesRejectionCode → Type 0) (level : Option PadesLevel) (code : PadesRejectionCode)
    (rest : PadesLevel → Result PadesRejectionCode PadesAdmission) (c : PadesRejectionCode)
    → (level ≡ none → P code)
    → ((a : PadesLevel) → level ≡ some a → rest a ≡ err c → P c)
    → (attained_or level code >>= rest) ≡ err c
    → P c
at_level P none code rest c left right h = let e : code ≡ c = cc in subst P e (left refl)
at_level P (some a) code rest c left right h = right a refl h

module _ (policy : PadesAdmissionPolicy) (e : SignatureEvidence) (required : PadesLevel) where
  -- From the level on.
  levelled :
      (result : ValidationResult) (at : String) (c : PadesRejectionCode)
      → admit_level required policy e result at ≡ err c
      → Missing policy e c
  levelled result at c h =
      at_level (Missing policy e) (attained_pades_level e) (missing_evidence_code e required) _ c
        (λ none_at. Missing-named policy e required (rw none_at refl))
        (λ a some_at h1.
          refused_by (Missing policy e)
            (policy.requires_timestamp && is_missing e.signature_timestamp_reference)
            timestamp_missing _ c (λ m. and_true policy.requires_timestamp _ m)
            (λ stamped h2.
              refused_by (Missing policy e) (not (level_at_least a required))
                (missing_evidence_code e required) _ c
                (λ low. Missing-named policy e required (rw some_at (ground (arith, low))))
                (λ high h3. absurd (cc)) h2)
            h1)
        h

  result_named :
      (read : Option ValidationResult) (at : Option String) (c : PadesRejectionCode)
      → e.validation_result ≡ read
      → e.validated_at ≡ at
      → admit_at required policy e ≡ err c
      → Missing policy e c
  unfolding admit_at attained_pades_level missing_evidence_code
  result_named none at c er ea h =
      let s : ◌≡◌ {A = Result PadesRejectionCode PadesAdmission} (err not_validated) (err c) =
        rw er at h in
      let same : not_validated ≡ c = cc in subst (Missing policy e) same (rw er refl)
  result_named (some r) none c er ea h =
      let s : ◌≡◌ {A = Result PadesRejectionCode PadesAdmission} (err not_validated) (err c) =
        rw (er, ea) at h in
      let same : not_validated ≡ c = cc in subst (Missing policy e) same (rw (er, ea) refl)
  result_named (some total_failed) (some t) c er ea h =
      let s : ◌≡◌ {A = Result PadesRejectionCode PadesAdmission} (err validation_failed) (err c) =
        rw (er, ea) at h in
      let same : validation_failed ≡ c = cc in subst (Missing policy e) same er
  result_named (some total_passed) (some t) c er ea h =
      refused_by (Missing policy e) (not (includes policy.allowed_validation_results total_passed))
        validation_result_not_allowed _ c (λ m. (total_passed, er, ground (arith, m)))
        (λ allowed h1. levelled total_passed t c h1) (rw (er, ea) at h)
  result_named (some indeterminate) (some t) c er ea h =
      refused_by (Missing policy e) (not (includes policy.allowed_validation_results indeterminate))
        validation_result_not_allowed _ c (λ m. (indeterminate, er, ground (arith, m)))
        (λ allowed h1. levelled indeterminate t c h1) (rw (er, ea) at h)

  named_for :
      (asked : RequiredPadesLevel) (c : PadesRejectionCode)
      → policy.required_pades_level ≡ asked
      → admit_for asked policy e ≡ err c
      → asked ≡ at_least required ⊎ (asked ≡ no_level)
      → Missing policy e c
  named_for no_level c at h given =
      let same : not_required_by_policy ≡ c = cc in subst (Missing policy e) same at
  named_for (at_least l) c at h (inl given) =
      let same : l ≡ required = cc in
      result_named e.validation_result e.validated_at c refl refl
        (subst (λ k. admit_at k policy e ≡ err c) same h)
  named_for (at_least l) c at h (inr given) = absurd (cc)

level_asked :
    (asked : RequiredPadesLevel)
    → (required : PadesLevel) × (asked ≡ at_least required ⊎ (asked ≡ no_level))
level_asked no_level = (level_b, inr refl)
level_asked (at_least l) = (l, inl refl)

-- A refusal names what is the matter: the evidence that it calls missing is missing, the result that
-- it does not allow is not allowed; and no refusal leaves open why the level was not reached.
pub refusal_names-Missing :
    (policy : PadesAdmissionPolicy) (e : SignatureEvidence) (c : PadesRejectionCode)
    → admit_pades_signature policy e ≡ err c
    → Missing policy e c
unfolding admit_pades_signature
refusal_names-Missing policy e c h =
    let (required, given) = level_asked policy.required_pades_level in
    named_for policy e required policy.required_pades_level c refl h given
