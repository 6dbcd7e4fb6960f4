-- ===== src/ProtectedIdentity/Disclosure.antt =====
-- What `decideDisclosure` lets through.
use kommunsign.Prelude.{
  Option, none, some, ◌+◌, ◌≤◌, ◌≡◌, ◌≢◌, refl, sym, ap, ◌∙◌, ◌⊎◌, inl, inr, Bool, true, false, not,
  ◌&&◌, ◌||◌, List, [], ◌∷◌, arith, ok, ok_injective, ◌==◌, ==_iff, length, includes, Bool-cases,
  string_eq, subst,
}
use kommunsign.Prelude.Number.{is_after}
use kommunsign.Prelude.Text.{is_blank}
use kommunsign.ProtectedIdentity.Types.{
  ProtectionLevel, unprotected, fingerade_personuppgifter, level_index, level_eq, OutputChannel,
  evidence_package, audit_log, application_log, analytics, url, full_name, personal_number,
  channel_eq, ProtectedField, field_eq,
}
use kommunsign.ProtectedIdentity.{
  ConfidentialityAssessment, ChannelRule, never_identifying, identifying_only, rules_for,
  may_disclose, split_fields, is_assessed, DisclosureRequest, DisclosureDecision, decide_disclosure,
}

-- The rule of a request, and whether it lets a field through.
abbrev pub lets_through : DisclosureRequest → ProtectedField → Bool
lets_through request field =
    may_disclose (rules_for request.level request.channel) (is_assessed request request.assessment)
      field

-- A field that is put in a list is found there; one that is left out is not looked for.
put_in :
    (same rest fits fits_too : Bool)
    → (same ≡ true → fits ≡ fits_too)
    → fits ≡ true
    → (same || (rest && fits_too)) ≡ ((same || rest) && fits_too)
put_in same rest fits fits_too link h = ground arith

left_out :
    (same rest fits fits_too : Bool)
    → (same ≡ true → fits ≡ fits_too)
    → fits ≡ false
    → (rest && fits_too) ≡ ((same || rest) && fits_too)
left_out same rest fits fits_too link h = ground arith

module _ (r : ChannelRule) (assessed : Bool) (f g : ProtectedField) (gs : List ProtectedField) where
  fits_alike : (g == f) ≡ true → may_disclose r assessed g ≡ may_disclose r assessed f
  fits_alike e = ap (may_disclose r assessed) ((==_iff g f).0 e)

  disclosed_next :
      includes (split_fields r assessed gs).disclosed f
        ≡ (includes gs f && may_disclose r assessed f)
      → includes (split_fields r assessed (g ∷ gs)).disclosed f
        ≡ (includes (g ∷ gs) f && may_disclose r assessed f)
  unfolding split_fields
  disclosed_next ih = elim (Bool-cases (may_disclose r assessed g)) [
    | inl through ↦
        rw (through, ih)
          (put_in (g == f) (includes gs f) (may_disclose r assessed g) (may_disclose r assessed f)
            fits_alike through)
    | inr stopped ↦
        rw (stopped, ih)
          (left_out (g == f) (includes gs f) (may_disclose r assessed g) (may_disclose r assessed f)
            fits_alike stopped)
  ]

  redacted_next :
      includes (split_fields r assessed gs).redacted f
        ≡ (includes gs f && not (may_disclose r assessed f))
      → includes (split_fields r assessed (g ∷ gs)).redacted f
        ≡ (includes (g ∷ gs) f && not (may_disclose r assessed f))
  unfolding split_fields
  redacted_next ih = elim (Bool-cases (may_disclose r assessed g)) [
    | inl through ↦
        rw (through, ih)
          (left_out (g == f) (includes gs f) (not (may_disclose r assessed g))
            (not (may_disclose r assessed f)) (λ e. ap not (fits_alike e)) (ap not through))
    | inr stopped ↦
        rw (stopped, ih)
          (put_in (g == f) (includes gs f) (not (may_disclose r assessed g))
            (not (may_disclose r assessed f)) (λ e. ap not (fits_alike e)) (ap not stopped))
  ]

length_split :
    (r : ChannelRule) (assessed : Bool) (fields : List ProtectedField)
    → let d = split_fields r assessed fields in
      length d.disclosed + length d.redacted ≡ length fields
unfolding split_fields
length_split r assessed [] = refl
length_split r assessed (g ∷ gs) =
    let ih = length_split r assessed gs in
    elim (Bool-cases (may_disclose r assessed g)) [
      | inl through ↦ rw through (omega (arith, ih))
      | inr stopped ↦ rw stopped (omega (arith, ih))
    ]

split_sound :
    (r : ChannelRule) (assessed : Bool) (fields : List ProtectedField) (f : ProtectedField)
    → let d = split_fields r assessed fields in
      (includes d.disclosed f ≡ (includes fields f && may_disclose r assessed f))
      × (includes d.redacted f ≡ (includes fields f && not (may_disclose r assessed f)))
unfolding split_fields
split_sound r assessed [] f = (refl, refl)
split_sound r assessed (g ∷ gs) f =
    let (shown, hidden) = split_sound r assessed gs f in
    (disclosed_next r assessed f g gs shown, redacted_next r assessed f g gs hidden)

decided :
    (request : DisclosureRequest)
    → decide_disclosure request
      ≡ ok (
          split_fields
            (rules_for request.level request.channel)
            (is_assessed request request.assessment)
            request.fields)
unfolding decide_disclosure
decided request = ground arith

-- Every request is decided, and every field of it is either disclosed or redacted, by the rule of
-- its level and channel and the validity of its assessment: nothing is added and nothing is lost.
pub disclosure_partitions :
    (request : DisclosureRequest)
    → (d : DisclosureDecision) × (decide_disclosure request ≡ ok d)
      × ((f : ProtectedField)
          → (includes d.disclosed f ≡ (includes request.fields f && lets_through request f))
            × (includes d.redacted f ≡ (includes request.fields f && not (lets_through request f))))
      × (length d.disclosed + length d.redacted ≡ length request.fields)
disclosure_partitions request = (
  _,
  decided request,
  split_sound (rules_for request.level request.channel) (is_assessed request request.assessment)
      request.fields,
  length_split (rules_for request.level request.channel) (is_assessed request request.assessment)
      request.fields,
)

-- An assessment of this tenant and this person, with a ground, that has not expired.
pub record IsAssessed (request : DisclosureRequest) : Type 0 where
  pub assessment : ConfidentialityAssessment
  pub recorded : request.assessment ≡ some assessment
  pub same_tenant : assessment.tenant_id ≡ request.tenant_id
  pub same_subject : assessment.subject_id ≡ request.subject_id
  pub grounded : is_blank assessment.ground_given ≡ false
  pub current : is_after assessment.expires_at request.now ≡ true

IsAssessed-recorded :
    (request : DisclosureRequest) (given : Option ConfidentialityAssessment)
    → request.assessment ≡ given
    → is_assessed request given ≡ true
    → IsAssessed request
unfolding is_assessed
IsAssessed-recorded request none recorded h = absurd (cc)
IsAssessed-recorded request (some a) recorded h = record {
  assessment = a;
  recorded = recorded;
  same_tenant = (==_iff a.tenant_id request.tenant_id).0 (ground (arith, h));
  same_subject = (==_iff a.subject_id request.subject_id).0 (ground (arith, h));
  grounded = ground (arith, h);
  current = ground (arith, h);
}

-- Why a field of a protected person may be shown: an assessment is valid, or the field is the name or
-- the personal number and the channel is the evidence package or the audit log.
pub IsExcused : DisclosureRequest → ProtectedField → Type 0
IsExcused request f =
    IsAssessed request
    ⊎ (((f ≡ full_name) ⊎ (f ≡ personal_number))
        × ((request.channel ≡ evidence_package) ⊎ (request.channel ≡ audit_log)))

silent_channel :
    (channel : OutputChannel)
    → includes never_identifying channel ≡ false
    → (channel ≢ application_log) × (channel ≢ analytics) × (channel ≢ url)
silent_channel channel h = (
  λ e.
      let f : includes never_identifying application_log ≡ false =
        subst (λ c. includes never_identifying c ≡ false) e h in
      absurd (cc),
  λ e.
      let f : includes never_identifying analytics ≡ false =
        subst (λ c. includes never_identifying c ≡ false) e h in
      absurd (cc),
  λ e.
      let f : includes never_identifying url ≡ false =
        subst (λ c. includes never_identifying c ≡ false) e h in
      absurd (cc),
)

proving_field :
    (f : ProtectedField)
    → includes identifying_only f ≡ true
    → (f ≡ full_name) ⊎ (f ≡ personal_number)
proving_field f h = elim (Bool-cases (full_name == f)) [
  | inl name ↦ inl (sym ((==_iff full_name f).0 name))
  | inr other ↦ inr (sym ((==_iff personal_number f).0 (ground (arith, h, other))))
]

excused :
    (level : ProtectionLevel) (channel : OutputChannel) (assessed : Bool) (f : ProtectedField)
    → may_disclose (rules_for level channel) assessed f ≡ true
    → (includes never_identifying channel ≡ false)
      × (level ≢ fingerade_personuppgifter)
      × ((level ≡ unprotected)
          ⊎ ((assessed ≡ true)
              ⊎ ((includes identifying_only f ≡ true)
                  × ((channel ≡ evidence_package) ⊎ (channel ≡ audit_log)))))
unfolding may_disclose rules_for
excused level channel assessed f h = ground arith

-- The weaker the protection, the more may be shown.
weaker :
    (weak strong : ProtectionLevel) (channel : OutputChannel) (assessed : Bool) (f : ProtectedField)
    → level_index weak ≤ level_index strong
    → may_disclose (rules_for strong channel) assessed f ≡ true
    → may_disclose (rules_for weak channel) assessed f ≡ true
unfolding may_disclose rules_for
weaker weak strong channel assessed f le h = ground arith

decided-result :
    (request : DisclosureRequest) {d : DisclosureDecision}
    → decide_disclosure request ≡ ok d
    → d
      ≡ split_fields
          (rules_for request.level request.channel)
          (is_assessed request request.assessment)
          request.fields
decided-result request h = ok_injective (sym h ∙ decided request)

both : (a b : Bool) → (a && b) ≡ true → (a ≡ true) × (b ≡ true)
both a b h = ground arith

-- What is disclosed was asked for, and the rule lets it through.
disclosed_iff :
    (request : DisclosureRequest) (f : ProtectedField) {d : DisclosureDecision}
    → decide_disclosure request ≡ ok d
    → includes d.disclosed f ≡ (includes request.fields f && lets_through request f)
disclosed_iff request f h =
    let split =
      split_sound (rules_for request.level request.channel) (is_assessed request request.assessment)
        request.fields f in
    ap (λ (d : DisclosureDecision). includes d.disclosed f) (decided-result request h) ∙ split.0

IsExcused-reason :
    (request : DisclosureRequest) (f : ProtectedField)
    → ((is_assessed request request.assessment ≡ true)
        ⊎ ((includes identifying_only f ≡ true)
            × ((request.channel ≡ evidence_package) ⊎ (request.channel ≡ audit_log))))
    → IsExcused request f
unfolding IsExcused
IsExcused-reason request f (inl assessed) =
    inl (IsAssessed-recorded request request.assessment refl assessed)
IsExcused-reason request f (inr (proof, place)) = inr (proving_field f proof, place)

-- A field that is disclosed was asked for, on another channel than the application log, analytics
-- and URLs, and the person does not live under fictitious details. Of a person with a weaker
-- protection it is disclosed by an assessment of this tenant and this person, with a ground, that has
-- not expired, or it is the name or the personal number in the evidence package or the audit log.
pub disclosure_sound :
    (request : DisclosureRequest) (f : ProtectedField) {d : DisclosureDecision}
    → decide_disclosure request ≡ ok d
    → includes d.disclosed f ≡ true
    → (includes request.fields f ≡ true)
      × ((request.channel ≢ application_log)
          × (request.channel ≢ analytics)
          × (request.channel ≢ url))
      × (request.level ≢ fingerade_personuppgifter)
      × ((request.level ≡ unprotected) ⊎ IsExcused request f)
disclosure_sound request f h shown =
    let (asked, through) =
      both (includes request.fields f) (lets_through request f)
        (sym (disclosed_iff request f h) ∙ shown) in
    let (safe, resolvable, why) =
      excused request.level request.channel (is_assessed request request.assessment) f through in
    (
      asked,
      silent_channel request.channel safe,
      resolvable,
      elim why [ inl plain ↦ inl plain | inr reason ↦ inr (IsExcused-reason request f reason) ],
    )

same_assessment :
    (request : DisclosureRequest) (level : ProtectionLevel) (a : Option ConfidentialityAssessment)
    → is_assessed (record request { level = level }) a ≡ is_assessed request a
unfolding is_assessed
same_assessment request level none = refl
same_assessment request level (some a) = refl

-- A stronger protection never shows more: what is disclosed under it is disclosed as well for the
-- same request under a weaker one.
pub protection_is_monotone :
    (request : DisclosureRequest) (weak : ProtectionLevel) (f : ProtectedField)
    {d d' : DisclosureDecision}
    → level_index weak ≤ level_index request.level
    → decide_disclosure request ≡ ok d
    → decide_disclosure (record request { level = weak }) ≡ ok d'
    → includes d.disclosed f ≡ true
    → includes d'.disclosed f ≡ true
protection_is_monotone request weak f le h h' shown =
    let (asked, through) =
      both (includes request.fields f) (lets_through request f)
        (sym (disclosed_iff request f h) ∙ shown) in
    let still =
      weaker weak request.level request.channel (is_assessed request request.assessment) f le
        through in
    disclosed_iff (record request { level = weak }) f h'
    ∙ rw (same_assessment request weak request.assessment, asked, still) refl
