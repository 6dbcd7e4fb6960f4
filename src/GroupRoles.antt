-- ===== src/GroupRoles.antt =====
-- The loop that turns the groups of a directory into roles, as packages/scim/src/index.ts
-- (`resolveScimRoles`) and packages/federation/src/index.ts (`mapWorkforceIdentity`) write it, each
-- with its own error.
pub mod Laws
use kommunsign.Prelude.{
  String, Bool, false, ◌++◌, List, [], ◌∷◌, if◌then◌else◌, includes, string_eq, Result, ok, err,
  ◌>>=◌,
}
use kommunsign.Prelude.Object.{Looked, absent, inherited, own, Property, property}

module _ {E : Type 0} (not_assignable : E) (assignable_roles : List String)
    (group_to_role : List (Property String)) where
  -- One round, with what the table has for the group. A function that is inherited is no role that
  -- may be assigned.
  unfoldable pub grant : Looked String → List String → Result E (List String)
  grant absent roles = ok roles
  grant inherited roles = err not_assignable
  grant (own role) roles =
      if includes assignable_roles role
      then ok (if includes roles role then roles else roles ++ role ∷ [])
      else err not_assignable

  unfoldable pub collect_roles : List String → List String → Result E (List String)
  collect_roles [] roles = ok roles
  collect_roles (group ∷ groups) roles = do
    more ← grant (property group_to_role group) roles
    collect_roles groups more
