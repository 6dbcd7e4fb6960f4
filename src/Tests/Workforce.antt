-- ===== src/Tests/Workforce.antt =====
-- Runs of packages/federation, and its theorems applied.
use kommunsign.Prelude.{
  String, ◌≡◌, refl, true, false, none, some, List, [], ◌∷◌, ◌↔◌, ◌≢◌, arith, string_eq, ok, err,
}
use kommunsign.Prelude.Number.{instant}
use kommunsign.Prelude.Object.{own, property}
use kommunsign.Prelude.Text.{is_blank}
use kommunsign.Prelude.TextOrder.{text_le}
use kommunsign.GroupRoles.{grant, collect_roles}
use kommunsign.Federation.Types.{
  saml2, FederationConfig, WorkforceAssertion, FederationRequestBinding, in_memory_ledger, rejected,
  role_not_assignable,
}
use kommunsign.Federation.Ledger.{ledger_for, prune_ledger}
use kommunsign.Federation.Admission.{verify_workforce_assertion}
use kommunsign.Federation.Admission.Laws.{IsBound, IsCurrent, IsSufficient, admission_iff}
use kommunsign.Federation.Admission.Replay.{Presentation, present, accepted}
use kommunsign.Federation.Admission.Pruning.{
  presented, pruned, after_events, row_of, spent_assertion_is_refused,
}
use kommunsign.Federation.Identity.{MappedWorkforceIdentity, subject_of, map_workforce_identity}
use kommunsign.Federation.Identity.Laws.{IsMapped, mapping_sound}
use kommunsign.Federation.Logout.{LogoutRequest, Session, resolve_logout_targets}

abbrev config : FederationConfig
config = record {
  tenant_id = "t";
  protocol = saml2;
  enabled = true;
  issuer = "idp";
  audience = "us";
  destination = "https://us/acs";
  signing_certificate_secret_reference = "ref";
  required_authn_contexts = "loa3" ∷ [];
  maximum_authentication_age_seconds = 60;
  subject_attribute = "uid";
  groups_attribute = "groups";
  group_to_role =
      record { name = "g1"; value = "signer" } ∷ record { name = "g2"; value = "admin" } ∷ [];
  assignable_roles = "signer" ∷ [];
}

abbrev binding : FederationRequestBinding
binding = record { request_id = "r"; tenant_id = "t"; redirect_uri = "https://us/acs" }

abbrev assertion : List String → WorkforceAssertion
assertion groups = record {
  protocol = saml2;
  signature_verified = true;
  issuer = "idp";
  audience = "us";
  destination = "https://us/acs";
  assertion_id = "a";
  in_response_to = some "r";
  not_before = none;
  not_on_or_after = instant 2000;
  authenticated_at = instant 500;
  authn_context = some "loa3";
  subject = "person";
  attributes = record { name = "groups"; value = groups } ∷ [];
}

steps : Unit {0}
unfolding verify_workforce_assertion is_blank accepted property grant collect_roles
    map_workforce_identity text_le resolve_logout_targets
steps = tt

login_run :
    (verify_workforce_assertion in_memory_ledger (assertion []) config binding 1000 []).result
    ≡ ok tt
unfolding steps
login_run = refl

-- A group that is named like a member of every object is refused, though the table has no such group.
inherited_run :
    map_workforce_identity (assertion ("g1" ∷ "constructor" ∷ [])) config binding
    ≡ err (rejected role_not_assignable)
unfolding steps
inherited_run = refl

admission_iff_example :
    ((verify_workforce_assertion in_memory_ledger (assertion []) config binding 1000 []).result
      ≡ ok tt)
    ↔ (IsBound (assertion []) config binding
        × IsCurrent (assertion []) config 1000
        × (in_memory_ledger.fresh [] "a" (instant 2000) ≡ true)
        × IsSufficient (assertion []) config)
admission_iff_example = admission_iff in_memory_ledger (assertion []) config binding 1000 []

abbrev presentation : Presentation
presentation = record { assertion = assertion []; config = config; binding = binding; now = 1000 }

replay_run : accepted (ledger_for "t") (presentation ∷ presentation ∷ []) [] ≡ "a" ∷ []
unfolding steps
replay_run = refl

-- A row is deleted behind the end of its validity, and not before.
pruning_run :
    let rows = (present (ledger_for "t") presentation []).ledger in
    (prune_ledger 2001 rows ≡ []) × (prune_ledger 2000 rows ≡ row_of "t" presentation ∷ [])
unfolding steps
pruning_run = (refl, refl)

spent_assertion_is_refused_example :
    (present
      (ledger_for "t")
      (record presentation { now = 1600 })
      (after_events
        (presented "other" presentation ∷ pruned 1500 ∷ [])
        (present (ledger_for "t") presentation []).ledger)).result
    ≢ ok tt
spent_assertion_is_refused_example =
    spent_assertion_is_refused "t" presentation (record presentation { now = 1600 })
      (presented "other" presentation ∷ pruned 1500 ∷ []) [] (unfold steps in refl)
      (omega arith, (omega arith, omega arith)) refl refl

abbrev mapped : MappedWorkforceIdentity
mapped = record {
  tenant_id = "t";
  subject = "person";
  roles = "signer" ∷ [];
  groups = "g1" ∷ "g9" ∷ [];
  authenticated_at = instant 500;
  protocol = saml2;
}

mapped_run : map_workforce_identity (assertion ("g9" ∷ "g1" ∷ [])) config binding ≡ ok mapped
unfolding steps
mapped_run = refl

mapping_sound_example :
    (groups : List String) × IsMapped (assertion ("g9" ∷ "g1" ∷ [])) config binding mapped groups
mapping_sound_example =
    mapping_sound (assertion ("g9" ∷ "g1" ∷ [])) config binding mapped mapped_run

named_run : is_blank "person" ≡ false
unfolding steps
named_run = refl

groups_run : property (assertion ("g2" ∷ [])).attributes config.groups_attribute ≡ own ("g2" ∷ [])
unfolding steps
groups_run = refl

subject_run :
    is_blank
      (subject_of (property (assertion ("g2" ∷ [])).attributes config.subject_attribute) "person")
    ≡ false
unfolding steps
subject_run = refl

abbrev logout : LogoutRequest
logout = record { issuer = "idp"; subject = "p"; session_index = none; signature_verified = true }

abbrev sessions : List Session
sessions =
    record { session_id = "s2"; tenant_id = "t"; subject = "p"; session_index = none }
    ∷ record { session_id = "s1"; tenant_id = "t"; subject = "p"; session_index = some "1" }
    ∷ record { session_id = "s0"; tenant_id = "t"; subject = "q"; session_index = none }
    ∷ []

logout_run : resolve_logout_targets logout config sessions ≡ ok ("s1" ∷ "s2" ∷ [])
unfolding steps
logout_run = refl
