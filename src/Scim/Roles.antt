-- ===== src/Scim/Roles.antt =====
-- packages/scim/src/index.ts: `resolveScimRoles`, `applyGroupMembership`.
pub mod Laws
use kommunsign.Prelude.{String, List, [], Result, ok, ◌>>=◌, ◌>>◌}
use kommunsign.Prelude.Sort.{sort}
use kommunsign.Prelude.TextOrder.{text_le}
use kommunsign.GroupRoles.{collect_roles}
use kommunsign.Scim.Types.{
  ScimError, scim_error, role_not_assignable, ScimUser, ScimContext, assert_scim_tenant,
}

unfoldable pub resolve_scim_roles : ScimContext → List String → Result ScimError (List String)
resolve_scim_roles context groups = do
  roles ←
      collect_roles (scim_error role_not_assignable) context.assignable_roles context.group_to_role
        groups []
  ok (sort text_le roles)

unfoldable pub apply_group_membership :
    ScimContext → ScimUser → List String → String → Result ScimError ScimUser
apply_group_membership context user groups now = do
  assert_scim_tenant context user.tenant_id
  roles ← resolve_scim_roles context groups
  ok (record user { groups = sort text_le groups; roles = roles; updated_at = now })
