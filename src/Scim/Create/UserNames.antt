-- ===== src/Scim/Create/UserNames.antt =====
-- The user names of a tenant after a creation.
use kommunsign.Prelude.{
  String, ◌≡◌, refl, sym, ap, ◌∙◌, ◌||◌, List, [], ◌∷◌, ◌++◌, map, inl, inr, includes, Distinct,
  Distinct-push, ◌==◌, string_eq, ok,
}
use kommunsign.Scim.Types.{ScimUser, ScimContext}
use kommunsign.Scim.Create.{ScimUserWrite, ScimCreateResult, scoped, is_taken, create_scim_user}
use kommunsign.Scim.Create.Laws.{stored, scoped-append, creation_sound}

module _ (lower : String → String) where
  -- The user names of the tenant, in lower case.
  abbrev pub user_names : ScimContext → List ScimUser → List String
  user_names context users = map (λ (user : ScimUser). lower user.user_name) (scoped context users)

  taken_iff :
      (name : String) (users : List ScimUser)
      → is_taken lower name users
        ≡ includes (map (λ (user : ScimUser). lower user.user_name) users) (lower name)
  taken_iff name [] = refl
  taken_iff name (u ∷ us) = ap (λ b. (lower u.user_name == lower name) || b) (taken_iff name us)

  map_last :
      (users : List ScimUser) (user : ScimUser)
      → map (λ (u : ScimUser). lower u.user_name) (users ++ user ∷ [])
        ≡ map (λ (u : ScimUser). lower u.user_name) users ++ lower user.user_name ∷ []
  map_last [] user = refl
  map_last (u ∷ us) user = ap (λ l. lower u.user_name ∷ l) (map_last us user)

  -- Creating users never gives one user name twice in the tenant.
  pub create_scim_user-Distinct :
      (context : ScimContext) (write : ScimUserWrite) (existing : List ScimUser) (id now : String)
      (r : ScimCreateResult)
      → create_scim_user lower context write existing id now ≡ ok r
      → Distinct (user_names context existing)
      → Distinct (user_names context (stored r existing))
  create_scim_user-Distinct context write existing id now r h d =
      let o = creation_sound lower context write existing id now r h in
      elim o.outcome [
        | inl (hit, m) ↦ rw hit d
        | inr (miss, m) ↦
            rw
              (
                miss,
                scoped-append context existing r.user m.tenant,
                map_last (scoped context existing) r.user,
              )
              (Distinct-push (user_names context existing) (lower r.user.user_name)
                (sym (taken_iff r.user.user_name (scoped context existing)) ∙ m.free) d)
      ]
