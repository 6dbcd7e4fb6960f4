-- ===== src/Federation/Identity/Laws.antt =====
-- As whom a federated login comes in.
use kommunsign.Prelude.{
  String, ◌≡◌, ◌≢◌, refl, sym, ap, ◌∙◌, Bool, true, false, List, [], ◌∷◌, arith, ◌⊎◌, inl, inr,
  Bool-cases, is_empty, length, includes, Distinct, string_eq, ok, err, throw_if, >>=-eq-ok,
  >>-eq-ok, throw_if-eq-ok, ok_injective,
}
use kommunsign.Prelude.Object.{own, property}
use kommunsign.Prelude.Sort.{
  IsSorted, sort, length-sort, sort-IsSorted, sort-Distinct, includes-sort,
}
use kommunsign.Prelude.Text.{is_blank}
use kommunsign.Prelude.TextOrder.{text_le, text_le_trans, text_le-total}
use kommunsign.GroupRoles.{collect_roles}
use kommunsign.GroupRoles.Laws.{all_permitted, given_by, collected, refused}
use kommunsign.Federation.Types.{
  FederationConfig, WorkforceAssertion, FederationRequestBinding, rejected, subject_missing,
  no_role_mapped, role_not_assignable,
}
use kommunsign.Federation.Identity.{
  MappedWorkforceIdentity, subject_of, groups_of, map_workforce_identity,
}

module _ (a : WorkforceAssertion) (c : FederationConfig) (b : FederationRequestBinding) where
  abbrev pub permits : List String → Bool
  permits = all_permitted (rejected role_not_assignable) c.assignable_roles c.group_to_role

  abbrev pub grants : List String → String → Bool
  grants = given_by (rejected role_not_assignable) c.assignable_roles c.group_to_role

  -- The identity that the groups give.
  pub record IsMapped (identity : MappedWorkforceIdentity) (groups : List String) : Type 0 where
    pub at_groups : groups_of (property a.attributes c.groups_attribute) ≡ ok groups
    pub tenant : identity.tenant_id ≡ b.tenant_id
    pub subject :
        identity.subject ≡ subject_of (property a.attributes c.subject_attribute) a.subject
    pub named : is_blank identity.subject ≡ false
    pub assignable : permits groups ≡ true
    pub exact : (role : String) → includes identity.roles role ≡ grants groups role
    pub some_role : identity.roles ≢ []
    pub distinct : Distinct identity.roles
    pub ordered : IsSorted text_le identity.roles

  collected_only :
      (groups roles : List String)
      → collect_roles (rejected role_not_assignable) c.assignable_roles c.group_to_role groups []
        ≡ ok roles
      → (permits groups ≡ true)
        × ((role : String) → includes roles role ≡ grants groups role)
        × Distinct roles
  collected_only groups roles h = elim (Bool-cases (permits groups)) [
    | inl fine ↦
        let (out, ran, exact, distinct) =
          collected (rejected role_not_assignable) c.assignable_roles c.group_to_role groups []
            fine in
        let same : out ≡ roles = ok_injective (sym ran ∙ h) in
        (fine, λ r. rw (sym same) (exact r), rw (sym same) (distinct tt))
    | inr bad ↦
        let ran =
          refused (rejected role_not_assignable) c.assignable_roles c.group_to_role groups [] bad in
        absurd (cc)
  ]

  sort-ne-nil : (roles : List String) → is_empty roles ≡ false → sort text_le roles ≢ []
  sort-ne-nil [] h e = cc
  sort-ne-nil (r ∷ rs) h e =
      let n = ap (λ (l : List String). length l) e in
      absurd (omega (arith, length-sort text_le (r ∷ rs)))

  -- A federated login comes in for the tenant of the request, under a subject that is named, with
  -- exactly the roles that its groups map to, at least one, in order and none twice; and every
  -- group of it that is mapped is mapped to a role that may be assigned.
  pub mapping_sound :
      (identity : MappedWorkforceIdentity)
      → map_workforce_identity a c b ≡ ok identity
      → (groups : List String) × IsMapped identity groups
  unfolding map_workforce_identity
  mapping_sound identity h =
      let subject = subject_of (property a.attributes c.subject_attribute) a.subject in
      let (named, rest) = >>-eq-ok (throw_if (is_blank subject) (rejected subject_missing)) _ h in
      let (groups, at, more) =
        >>=-eq-ok (groups_of (property a.attributes c.groups_attribute)) _ rest in
      let (roles, ran, last) =
        >>=-eq-ok
          (collect_roles (rejected role_not_assignable) c.assignable_roles c.group_to_role groups
            [])
          _ more in
      let (some_role, built) =
        >>-eq-ok (throw_if (is_empty roles) (rejected no_role_mapped)) _ last in
      let (fine, exact, distinct) = collected_only groups roles ran in
      let same = ok_injective built in
      (
        groups,
        rw (sym same) (record {
          at_groups = at;
          tenant = refl;
          subject = refl;
          named = throw_if-eq-ok (is_blank subject) _ named;
          assignable = fine;
          exact = λ r. includes-sort text_le roles r ∙ exact r;
          some_role = sort-ne-nil roles (throw_if-eq-ok (is_empty roles) _ some_role);
          distinct = sort-Distinct text_le roles distinct;
          ordered = sort-IsSorted text_le text_le_trans text_le-total roles;
        }),
      )

  nothing_granted :
      (groups out : List String)
      → ((role : String) → includes out role ≡ grants groups role)
      → is_empty out ≡ true
      → (role : String) → grants groups role ≡ false
  nothing_granted groups [] exact h role = sym (exact role)
  nothing_granted groups (r ∷ rs) exact h role = absurd (cc)

  -- A login of a named subject with a list of groups has one of three outcomes: it is refused
  -- exactly for a group that is mapped to what may not be assigned, or otherwise for groups none of
  -- which gives a role, or it comes in.
  pub mapping_outcome :
      (groups : List String)
      → is_blank (subject_of (property a.attributes c.subject_attribute) a.subject) ≡ false
      → property a.attributes c.groups_attribute ≡ own groups
      → ((permits groups ≡ false)
          × (map_workforce_identity a c b ≡ err (rejected role_not_assignable)))
        ⊎ (((permits groups ≡ true)
              × ((role : String) → grants groups role ≡ false)
              × (map_workforce_identity a c b ≡ err (rejected no_role_mapped)))
            ⊎ ((permits groups ≡ true)
                × ((identity : MappedWorkforceIdentity) × (map_workforce_identity a c b
                      ≡ ok identity))))
  unfolding map_workforce_identity
  mapping_outcome groups named at = elim (Bool-cases (permits groups)) [
    | inl fine ↦
        let (out, ran, exact, distinct) =
          collected (rejected role_not_assignable) c.assignable_roles c.group_to_role groups []
            fine in
        elim (Bool-cases (is_empty out)) [
          | inl none_given ↦ inr (
              inl (
                fine,
                nothing_granted groups out exact none_given,
                rw (named, at, ran, none_given) refl,
              ))
          | inr some_given ↦ inr (
              inr (
                fine,
                (
                  record {
                    tenant_id = b.tenant_id;
                    subject = subject_of (property a.attributes c.subject_attribute) a.subject;
                    roles = sort text_le out;
                    groups = sort text_le groups;
                    authenticated_at = a.authenticated_at;
                    protocol = a.protocol;
                  },
                  rw (named, at, ran, some_given) refl,
                ),
              ))
        ]
    | inr bad ↦
        let ran =
          refused (rejected role_not_assignable) c.assignable_roles c.group_to_role groups [] bad in
        inl (bad, rw (named, at, ran) refl)
  ]
