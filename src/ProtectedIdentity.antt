-- ===== src/ProtectedIdentity.antt =====
-- packages/protected-identity/src/index.ts: what of a protected person may leave the system.
pub mod Types
pub mod Disclosure
pub mod Access
use kommunsign.Prelude.{
  ℕ, String, ◌≡◌, Bool, true, false, not, ◌&&◌, ◌||◌, Option, none, some, List, [], ◌∷◌, arith,
  Result, ok, err, ◌>>=◌, ◌>>◌, throw_if, for_each, if◌then◌else◌, leb, ◌==◌, ◌!=◌, Eq, eq_by_index,
  nat_beq, string_eq, includes,
}
use kommunsign.Prelude.Text.{codes, is_blank, includes_text}
use kommunsign.Prelude.Number.{IsoDateTime, is_after, is_at_most}
use kommunsign.ProtectedIdentity.Types.{
  ProtectionLevel, unprotected, sekretessmarkering, skyddad_folkbokforing,
  fingerade_personuppgifter, level_index, level_eq, OutputChannel, screen_authorised,
  screen_colleague, search_result, notification_email_body, notification_email_subject,
  document_visible_text, evidence_package, archive_export, application_log, audit_log,
  support_tooling, analytics, url, channel_eq, output_channels, ProtectedField, personal_number,
  full_name, address, email_address, phone_number, organisational_unit, field_eq, protected_fields,
}

pub data ProtectedIdentityError : Type 0 where
  channel_unknown disclosure_forbidden assessment_required : ProtectedIdentityError
  access_not_granted grant_expired tenant_mismatch : ProtectedIdentityError

abbrev pub protection_at_least : ProtectionLevel → ProtectionLevel → Bool
protection_at_least actual threshold = leb (level_index threshold) (level_index actual)

-- What a caller may hand over as a level.
pub data Given : Type 0 where
  absent : Given
  text : String → Given
  something : Given

abbrev pub level_named : String → ProtectionLevel
level_named name =
    if name == "NONE"
    then unprotected
    else if name == "SEKRETESSMARKERING"
    then sekretessmarkering
    else if name == "SKYDDAD_FOLKBOKFORING"
    then skyddad_folkbokforing
    else fingerade_personuppgifter

unfoldable pub normalise_protection_level : Given → ProtectionLevel
normalise_protection_level absent = unprotected
normalise_protection_level (text name) = level_named name
normalise_protection_level something = fingerade_personuppgifter

-- NEVER_IDENTIFYING
abbrev pub never_identifying : List OutputChannel
never_identifying = application_log ∷ analytics ∷ url ∷ []

pub record ChannelRule : Type 0 where
  pub allowed : List ProtectedField
  pub requires_assessment : List ProtectedField

-- IDENTIFYING_ONLY
abbrev pub identifying_only : List ProtectedField
identifying_only = full_name ∷ personal_number ∷ []

abbrev pub rule : List ProtectedField → List ProtectedField → ChannelRule
rule allowed requires_assessment = record {
  allowed = allowed;
  requires_assessment = requires_assessment;
}

abbrev pub sekretess_rule : OutputChannel → ChannelRule
sekretess_rule screen_authorised = rule [] protected_fields
sekretess_rule support_tooling = rule [] protected_fields
sekretess_rule evidence_package = rule identifying_only []
sekretess_rule audit_log = rule identifying_only []
sekretess_rule screen_colleague = rule [] identifying_only
sekretess_rule search_result = rule [] identifying_only
sekretess_rule notification_email_body = rule [] identifying_only
sekretess_rule document_visible_text = rule [] identifying_only
sekretess_rule archive_export = rule [] identifying_only
sekretess_rule _ = rule [] []

abbrev pub skyddad_rule : OutputChannel → ChannelRule
skyddad_rule evidence_package = rule identifying_only []
skyddad_rule audit_log = rule identifying_only []
skyddad_rule screen_authorised = rule [] identifying_only
skyddad_rule _ = rule [] []

abbrev pub level_rule : ProtectionLevel → OutputChannel → ChannelRule
level_rule unprotected channel = rule protected_fields []
level_rule sekretessmarkering channel = sekretess_rule channel
level_rule skyddad_folkbokforing channel = skyddad_rule channel
level_rule fingerade_personuppgifter channel = rule [] []

unfoldable pub rules_for : ProtectionLevel → OutputChannel → ChannelRule
rules_for level channel =
    if includes never_identifying channel then rule [] [] else level_rule level channel

pub record ConfidentialityAssessment : Type 0 where
  pub tenant_id : String
  pub subject_id : String
  pub assessed_by : String
  pub assessed_at : IsoDateTime
  pub expires_at : IsoDateTime
  pub ground_given : String

pub record DisclosureRequest : Type 0 where
  pub tenant_id : String
  pub subject_id : String
  pub level : ProtectionLevel
  pub channel : OutputChannel
  pub fields : List ProtectedField
  pub assessment : Option ConfidentialityAssessment
  pub now : ℕ

pub record DisclosureDecision : Type 0 where
  pub disclosed : List ProtectedField
  pub redacted : List ProtectedField

-- `assessmentValid`
unfoldable pub is_assessed : DisclosureRequest → Option ConfidentialityAssessment → Bool
is_assessed request none = false
is_assessed request (some assessment) =
    assessment.tenant_id == request.tenant_id
    && assessment.subject_id == request.subject_id
    && not (is_blank assessment.ground_given)
    && is_after assessment.expires_at request.now

-- The two tests of the loop over the fields.
unfoldable pub may_disclose : ChannelRule → Bool → ProtectedField → Bool
may_disclose channel_rule assessed field =
    includes channel_rule.allowed field
    || assessed && includes channel_rule.requires_assessment field

-- The loop, which fills the two lists.
unfoldable pub split_fields : ChannelRule → Bool → List ProtectedField → DisclosureDecision
split_fields channel_rule assessed [] = record { disclosed = []; redacted = [] }
split_fields channel_rule assessed (field ∷ fields) =
    let rest = split_fields channel_rule assessed fields in
    if may_disclose channel_rule assessed field
    then record { disclosed = field ∷ rest.disclosed; redacted = rest.redacted }
    else record { disclosed = rest.disclosed; redacted = field ∷ rest.redacted }

unfoldable pub decide_disclosure :
    DisclosureRequest → Result ProtectedIdentityError DisclosureDecision
decide_disclosure request = do
  throw_if (not (includes output_channels request.channel)) channel_unknown
  ok (
      split_fields (rules_for request.level request.channel)
        (is_assessed request request.assessment) request.fields)

unfoldable pub assert_subject_line_is_safe :
    String → List String → Result ProtectedIdentityError (Unit {0})
assert_subject_line_is_safe subject identifiers = for_each identifiers (λ identifier.
    throw_if (not (is_blank identifier) && includes_text (codes identifier) (codes subject))
      disclosure_forbidden)

pub record SupportAccessGrant : Type 0 where
  pub tenant_id : String
  pub subject_id : String
  pub granted_to : String
  pub granted_by : String
  pub granted_by_customer : Bool
  pub expires_at : IsoDateTime
  pub reason : String

pub record SupportRequest : Type 0 where
  pub tenant_id : String
  pub subject_id : String
  pub actor_id : String
  pub now : ℕ

unfoldable pub assert_support_access :
    Option SupportAccessGrant → SupportRequest → Result ProtectedIdentityError (Unit {0})
assert_support_access none request = err access_not_granted
assert_support_access (some grant) request = do
  throw_if (grant.tenant_id != request.tenant_id) tenant_mismatch
  throw_if (grant.subject_id != request.subject_id || grant.granted_to != request.actor_id)
      access_not_granted
  throw_if (not grant.granted_by_customer) access_not_granted
  throw_if (is_blank grant.reason) access_not_granted
  throw_if (is_at_most grant.expires_at request.now) grant_expired

unfoldable pub is_searchable : ProtectionLevel → Bool
is_searchable level = not (protection_at_least level skyddad_folkbokforing)

abbrev pub redacted_placeholder : ProtectedField → String
redacted_placeholder personal_number = "Skyddad uppgift"
redacted_placeholder full_name = "Skyddad identitet"
redacted_placeholder address = "Skyddad adress"
redacted_placeholder email_address = "Skyddad e-postadress"
redacted_placeholder phone_number = "Skyddat telefonnummer"
redacted_placeholder organisational_unit = "Skyddad organisationstillhörighet"
