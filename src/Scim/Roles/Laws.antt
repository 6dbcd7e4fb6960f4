-- ===== src/Scim/Roles/Laws.antt =====
-- Which roles a directory's groups give.
use kommunsign.Prelude.{
  String, ◌≡◌, refl, ◌∙◌, Bool, true, false, ◌⊎◌, inl, inr, List, [], includes, Distinct, string_eq,
  Bool-cases, ok, err,
}
use kommunsign.Prelude.Sort.{IsSorted, sort, sort-IsSorted, sort-Distinct, includes-sort}
use kommunsign.Prelude.TextOrder.{text_le, text_le_trans, text_le-total}
use kommunsign.GroupRoles.Laws.{all_permitted, given_by, collected, refused}
use kommunsign.Scim.Types.{scim_error, role_not_assignable, ScimContext}
use kommunsign.Scim.Roles.{resolve_scim_roles}

module _ (context : ScimContext) where
  abbrev pub permits : List String → Bool
  permits =
      all_permitted (scim_error role_not_assignable) context.assignable_roles context.group_to_role

  abbrev pub grants : List String → String → Bool
  grants = given_by (scim_error role_not_assignable) context.assignable_roles context.group_to_role

  pub record IsResolved (groups roles : List String) : Type 0 where
    pub exact : (role : String) → includes roles role ≡ grants groups role
    pub distinct : Distinct roles
    pub ordered : IsSorted text_le roles

  -- The groups of a user are refused exactly where one of them is mapped to what may not be
  -- assigned. Otherwise the roles are exactly those that the groups are mapped to, in order and
  -- none twice, so that a group without a mapping gives nothing.
  pub roles_exact :
      (groups : List String)
      → ((permits groups ≡ true)
          × ((roles : List String) × (resolve_scim_roles context groups ≡ ok roles)
              × IsResolved groups roles))
        ⊎ ((permits groups ≡ false)
            × (resolve_scim_roles context groups ≡ err (scim_error role_not_assignable)))
  unfolding resolve_scim_roles
  roles_exact groups = elim (Bool-cases (permits groups)) [
    | inl fine ↦
        let (out, ran, exact, distinct) =
          collected (scim_error role_not_assignable) context.assignable_roles context.group_to_role
            groups [] fine in
        inl (
          fine,
          (
            sort text_le out,
            rw ran refl,
            record {
              exact = λ role. includes-sort text_le out role ∙ exact role;
              distinct = sort-Distinct text_le out (distinct tt);
              ordered = sort-IsSorted text_le text_le_trans text_le-total out;
            },
          ),
        )
    | inr bad ↦ inr (
      bad,
      rw
          (refused (scim_error role_not_assignable) context.assignable_roles context.group_to_role
            groups [] bad)
          refl,
    )
  ]
