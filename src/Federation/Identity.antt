-- ===== src/Federation/Identity.antt =====
-- packages/federation/src/index.ts: `mapWorkforceIdentity`.
pub mod Laws
use kommunsign.Prelude.{
  String, Bool, ◌≡◌, List, [], ◌∷◌, Result, ok, err, ◌>>=◌, ◌>>◌, throw_if, is_empty,
}
use kommunsign.Prelude.Number.{IsoDateTime}
use kommunsign.Prelude.Object.{Looked, absent, inherited, own, property}
use kommunsign.Prelude.Sort.{sort}
use kommunsign.Prelude.Text.{is_blank}
use kommunsign.Prelude.TextOrder.{text_le}
use kommunsign.GroupRoles.{collect_roles}
use kommunsign.Federation.Types.{
  FederationProtocol, FederationConfig, WorkforceAssertion, FederationRequestBinding,
  FederationError, rejected, type_error, subject_missing, no_role_mapped, role_not_assignable,
}

pub record MappedWorkforceIdentity : Type 0 where
  pub tenant_id : String
  pub subject : String
  pub roles : List String
  pub groups : List String
  pub authenticated_at : IsoDateTime
  pub protocol : FederationProtocol

-- `subjectValues?.[0] ?? assertion.subject`: nothing stands at 0 of what is inherited.
abbrev pub subject_of : Looked (List String) → String → String
subject_of absent named = named
subject_of inherited named = named
subject_of (own []) named = named
subject_of (own (value ∷ values)) named = value

-- `assertion.attributes[config.groupsAttribute] ?? []`, over which the loop goes: what is inherited
-- is no array.
abbrev pub groups_of : Looked (List String) → Result FederationError (List String)
groups_of absent = ok []
groups_of inherited = err type_error
groups_of (own groups) = ok groups

unfoldable pub map_workforce_identity :
    WorkforceAssertion
    → FederationConfig
    → FederationRequestBinding
    → Result FederationError MappedWorkforceIdentity
map_workforce_identity assertion config binding = do
  let subject =
      subject_of (property assertion.attributes config.subject_attribute) assertion.subject
  throw_if (is_blank subject) (rejected subject_missing)
  groups ← groups_of (property assertion.attributes config.groups_attribute)
  roles ←
      collect_roles (rejected role_not_assignable) config.assignable_roles config.group_to_role
        groups []
  throw_if (is_empty roles) (rejected no_role_mapped)
  ok (record {
    tenant_id = binding.tenant_id;
    subject = subject;
    roles = sort text_le roles;
    groups = sort text_le groups;
    authenticated_at = assertion.authenticated_at;
    protocol = assertion.protocol;
  })
