-- ===== src/Tests/Protected.antt =====
-- Runs of packages/protected-identity, and its theorems applied.
use kommunsign.Prelude.{◌≡◌, ◌≢◌, refl, ◌⊎◌, true, none, some, [], ◌∷◌, ok, err, includes}
use kommunsign.Prelude.Text.{is_blank, trim}
use kommunsign.Prelude.Number.{instant}
use kommunsign.ProtectedIdentity.Types.{
  application_log, analytics, url, notification_email_subject, unprotected, sekretessmarkering,
  skyddad_folkbokforing, fingerade_personuppgifter, evidence_package, screen_colleague, full_name,
  address, field_eq, channel_eq,
}
use kommunsign.ProtectedIdentity.{
  text, normalise_protection_level, rules_for, is_assessed, may_disclose, split_fields,
  ConfidentialityAssessment, DisclosureRequest, DisclosureDecision, decide_disclosure,
  SupportAccessGrant, SupportRequest, assert_support_access, assert_subject_line_is_safe,
  disclosure_forbidden, grant_expired,
}
use kommunsign.ProtectedIdentity.Disclosure.{IsExcused, disclosure_sound}

-- The name of a signer with protected registration, for the evidence package.
abbrev proof_request : DisclosureRequest
proof_request = record {
  tenant_id = "t";
  subject_id = "s";
  level = skyddad_folkbokforing;
  channel = evidence_package;
  fields = full_name ∷ address ∷ [];
  assessment = none;
  now = 1000;
}

abbrev proof_decision : DisclosureDecision
proof_decision = record { disclosed = full_name ∷ []; redacted = address ∷ [] }

proof_run : decide_disclosure proof_request ≡ ok proof_decision
unfolding decide_disclosure rules_for split_fields may_disclose is_assessed
proof_run = refl

abbrev marked_request : DisclosureRequest
marked_request = record proof_request { level = sekretessmarkering; channel = screen_colleague }

abbrev assessment : ConfidentialityAssessment
assessment = record {
  tenant_id = "t";
  subject_id = "s";
  assessed_by = "a";
  assessed_at = instant 0;
  expires_at = instant 2000;
  ground_given = "menprövning";
}

marked_run :
    decide_disclosure marked_request
    ≡ ok (record { disclosed = []; redacted = full_name ∷ address ∷ [] })
unfolding decide_disclosure rules_for split_fields may_disclose is_assessed
marked_run = refl

assessed_run :
    decide_disclosure (record marked_request { assessment = some assessment }) ≡ ok proof_decision
unfolding decide_disclosure rules_for split_fields may_disclose is_assessed is_blank trim
assessed_run = refl

normalise_run : normalise_protection_level (text "SEKRETESS") ≡ fingerade_personuppgifter
unfolding normalise_protection_level
normalise_run = refl

disclosure_sound_example :
    (includes proof_request.fields full_name ≡ true)
    × ((evidence_package ≢ application_log)
        × (evidence_package ≢ analytics)
        × (evidence_package ≢ url))
    × (skyddad_folkbokforing ≢ fingerade_personuppgifter)
    × ((skyddad_folkbokforing ≡ unprotected) ⊎ IsExcused proof_request full_name)
disclosure_sound_example = disclosure_sound proof_request full_name proof_run refl

abbrev open_request : DisclosureRequest
open_request = record proof_request { level = unprotected }

open_run :
    decide_disclosure open_request
    ≡ ok (record { disclosed = full_name ∷ address ∷ []; redacted = [] })
unfolding decide_disclosure rules_for split_fields may_disclose is_assessed
open_run = refl

-- An e-mail's subject line is a channel like others for a person without protection.
subject_line_run :
    decide_disclosure (record open_request { channel = notification_email_subject })
    ≡ ok (record { disclosed = full_name ∷ address ∷ []; redacted = [] })
unfolding decide_disclosure rules_for split_fields may_disclose is_assessed
subject_line_run = refl

abbrev grant : SupportAccessGrant
grant = record {
  tenant_id = "t";
  subject_id = "s";
  granted_to = "u";
  granted_by = "c";
  granted_by_customer = true;
  expires_at = instant 2000;
  reason = "felsökning";
}

abbrev support_request : SupportRequest
support_request = record { tenant_id = "t"; subject_id = "s"; actor_id = "u"; now = 1000 }

support_run : assert_support_access (some grant) support_request ≡ ok tt
unfolding assert_support_access is_blank trim
support_run = refl

expired_run :
    assert_support_access (some grant) (record support_request { now = 2000 }) ≡ err grant_expired
unfolding assert_support_access is_blank trim
expired_run = refl

subject_run : assert_subject_line_is_safe "Ett ärende väntar" ("Anna" ∷ " " ∷ []) ≡ ok tt
unfolding assert_subject_line_is_safe is_blank trim
subject_run = refl

leaking_run : assert_subject_line_is_safe "Till Anna" ("Anna" ∷ []) ≡ err disclosure_forbidden
unfolding assert_subject_line_is_safe is_blank trim
leaking_run = refl
