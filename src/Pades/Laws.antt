-- ===== src/Pades/Laws.antt =====
-- The level that is admitted is the highest that the evidence supports.
use kommunsign.Prelude.{
  String, ◌≡◌, ◌≢◌, refl, ap, subst, true, false, not, ◌&&◌, Option, none, some, arith, is_empty,
  includes, ok, throw_if, >>=-eq-ok, >>-eq-ok, throw_if-eq-ok, ok_injective,
}
use kommunsign.Prelude.Text.{is_missing}
use kommunsign.Pades.{
  PadesLevel, level_b, level_t, level_lt, level_lta, RequiredPadesLevel, no_level, at_least,
  ValidationResult, total_passed, indeterminate, total_failed, result_eq, SignatureEvidence,
  PadesAdmissionPolicy, PadesRejectionCode, validation_result_not_allowed, timestamp_missing,
  attained_pades_level, level_at_least, missing_evidence_code, PadesAdmission, not_failed,
  validated, attained_or, admit_at, admit_for, admit_pades_signature,
}

-- What each level of ETSI EN 319 142 asks for.
abbrev pub HasSignature : SignatureEvidence → Type 0
HasSignature e =
    (is_missing e.signed_revision_sha256 ≡ false)
    × (is_missing e.signing_certificate_reference ≡ false)
    × (is_missing e.certificate_chain_reference ≡ false)

abbrev pub HasTimestamp : SignatureEvidence → Type 0
HasTimestamp e = is_missing e.signature_timestamp_reference ≡ false

abbrev pub HasValidationMaterial : SignatureEvidence → Type 0
HasValidationMaterial e =
    (is_empty e.revocation_evidence_references ≡ false)
    × (is_missing e.trust_list_snapshot_reference ≡ false)

abbrev pub Supports : SignatureEvidence → PadesLevel → Type 0
Supports e level_b = HasSignature e
Supports e level_t = HasSignature e × HasTimestamp e
Supports e level_lt = HasSignature e × (HasTimestamp e × HasValidationMaterial e)
Supports e level_lta =
    HasSignature e
    × (HasTimestamp e
        × (HasValidationMaterial e × (is_missing e.archive_timestamp_reference ≡ false)))

attained_supported :
    (e : SignatureEvidence) (l : PadesLevel) → attained_pades_level e ≡ some l → Supports e l
unfolding attained_pades_level
attained_supported e level_b h = ground arith
attained_supported e level_t h = ground arith
attained_supported e level_lt h = ground arith
attained_supported e level_lta h = ground arith

attained_greatest :
    (e : SignatureEvidence) (a l : PadesLevel)
    → attained_pades_level e ≡ some a
    → Supports e l
    → level_at_least a l ≡ true
unfolding attained_pades_level
attained_greatest e level_b level_b h s = refl
attained_greatest e level_b level_t h s = ground arith
attained_greatest e level_b level_lt h s = ground arith
attained_greatest e level_b level_lta h s = ground arith
attained_greatest e level_t level_b h s = refl
attained_greatest e level_t level_t h s = refl
attained_greatest e level_t level_lt h s = ground arith
attained_greatest e level_t level_lta h s = ground arith
attained_greatest e level_lt level_lta h s = ground arith
attained_greatest e level_lt level_b h s = refl
attained_greatest e level_lt level_t h s = refl
attained_greatest e level_lt level_lt h s = refl
attained_greatest e level_lta level_b h s = refl
attained_greatest e level_lta level_t h s = refl
attained_greatest e level_lta level_lt h s = refl
attained_greatest e level_lta level_lta h s = refl

-- An admission that the policy and the evidence justify.
pub record IsJustified (policy : PadesAdmissionPolicy) (e : SignatureEvidence) (a : PadesAdmission)
    : Type 0 where
  pub required : PadesLevel
  pub asked : policy.required_pades_level ≡ at_least required
  pub reported : e.validation_result ≡ some a.validation_result
  pub at : e.validated_at ≡ some a.validated_at
  pub passed : a.validation_result ≢ total_failed
  pub allowed : includes policy.allowed_validation_results a.validation_result ≡ true
  pub supported : Supports e a.admitted_level
  pub greatest : (l : PadesLevel) → Supports e l → level_at_least a.admitted_level l ≡ true
  pub reached : level_at_least a.admitted_level required ≡ true
  pub stamped : (policy.requires_timestamp && is_missing e.signature_timestamp_reference) ≡ false

validated-ok :
    (result : Option ValidationResult) (at : Option String) (both : ValidationResult × String)
    → validated result at ≡ ok both
    → (result ≡ some both.0) × (at ≡ some both.1)
validated-ok none at both h = absurd (cc)
validated-ok (some r) none both h = absurd (cc)
validated-ok (some r) (some t) both h =
    let same : (r, t) ≡ both = ok_injective h in
    (
      ap (λ (b : ValidationResult × String). some b.0) same,
      ap (λ (b : ValidationResult × String). some b.1) same,
    )

attained_or-ok :
    (level : Option PadesLevel) (code : PadesRejectionCode) (a : PadesLevel)
    → attained_or level code ≡ ok a
    → level ≡ some a
attained_or-ok none code a h = absurd (cc)
attained_or-ok (some l) code a h = ap some (ok_injective h)

not_failed-ok : (r : ValidationResult) → not_failed r ≡ ok tt → r ≢ total_failed
not_failed-ok total_passed h = λ e. absurd (cc)
not_failed-ok indeterminate h = λ e. absurd (cc)
not_failed-ok total_failed h = absurd (cc)

admitted_at :
    (required : PadesLevel) (policy : PadesAdmissionPolicy) (e : SignatureEvidence)
    (a : PadesAdmission)
    → policy.required_pades_level ≡ at_least required
    → admit_at required policy e ≡ ok a
    → IsJustified policy e a
unfolding admit_at
admitted_at required policy e a asked h =
    let (both, read, h1) = >>=-eq-ok (validated e.validation_result e.validated_at) _ h in
    let (reported, at) = validated-ok e.validation_result e.validated_at both read in
    let (passed, h2) = >>-eq-ok (not_failed both.0) _ h1 in
    let (allowed, h3) =
      >>-eq-ok
        (throw_if (not (includes policy.allowed_validation_results both.0))
          validation_result_not_allowed)
        _ h2 in
    let (attained, reaches, h4) =
      >>=-eq-ok (attained_or (attained_pades_level e) (missing_evidence_code e required)) _ h3 in
    let level = attained_or-ok (attained_pades_level e) _ attained reaches in
    let (stamped, h5) =
      >>-eq-ok
        (throw_if (policy.requires_timestamp && is_missing e.signature_timestamp_reference)
          timestamp_missing)
        _ h4 in
    let (reached, built) =
      >>-eq-ok
        (throw_if (not (level_at_least attained required)) (missing_evidence_code e required)) _
        h5 in
    subst (IsJustified policy e) (ok_injective built) (record {
      required = required;
      asked = asked;
      reported = reported;
      at = at;
      passed = not_failed-ok both.0 passed;
      allowed = ground (
        arith,
        throw_if-eq-ok (not (includes policy.allowed_validation_results both.0)) _ allowed,
      );
      supported = attained_supported e attained level;
      greatest = λ l s. attained_greatest e attained l level s;
      reached = ground (arith, throw_if-eq-ok (not (level_at_least attained required)) _ reached);
      stamped =
          throw_if-eq-ok (policy.requires_timestamp && is_missing e.signature_timestamp_reference) _
            stamped;
    })

admitted_for :
    (required : RequiredPadesLevel) (policy : PadesAdmissionPolicy) (e : SignatureEvidence)
    (a : PadesAdmission)
    → policy.required_pades_level ≡ required
    → admit_for required policy e ≡ ok a
    → IsJustified policy e a
admitted_for no_level policy e a asked h = absurd (cc)
admitted_for (at_least required) policy e a asked h = admitted_at required policy e a asked h

-- A signature is registered only if it is validated, with a result that the policy allows, and only
-- at the highest level that its evidence supports, which is at least the level of the policy; a
-- policy that asks for a timestamp gets one.
pub admission_sound :
    (policy : PadesAdmissionPolicy) (e : SignatureEvidence) (a : PadesAdmission)
    → admit_pades_signature policy e ≡ ok a
    → IsJustified policy e a
unfolding admit_pades_signature
admission_sound policy e a h = admitted_for policy.required_pades_level policy e a refl h
