-- ===== src/Scim/Create/Retry.antt =====
-- What a creation does that is repeated.
use kommunsign.Prelude.{
  String, ◌≡◌, refl, sym, ◌∙◌, subst, Bool, true, Option, none, some, List, [], ◌∷◌, ◌++◌, arith,
  inl, inr, Bool-cases, find, ==-self, string_eq, ok, >>=-eq-ok, ok_injective,
}
use kommunsign.Scim.Types.{ScimUser, ScimContext, require_non_empty}
use kommunsign.Scim.Create.{
  ScimUserWrite, ScimCreateResult, external_id_of, has_external_id, scoped, matching,
  create_scim_user,
}
use kommunsign.Scim.Create.Laws.{stored, scoped-append, Outcome, creation_sound}

find_appended :
    (p : ScimUser → Bool) (users : List ScimUser) (user : ScimUser)
    → find p users ≡ none
    → p user ≡ true
    → find p (users ++ user ∷ []) ≡ some user
find_appended p [] user miss hit = rw hit refl
find_appended p (u ∷ us) user miss hit = elim (Bool-cases (p u)) [
  | inl here ↦ absurd (ground (arith, miss, here))
  | inr other ↦ rw other (find_appended p us user (rw other at miss) hit)
]

module _ (lower : String → String) where
  create_matched :
      (context : ScimContext) (write : ScimUserWrite) (existing : List ScimUser) (id now : String)
      (user_name : String) (external_id : Option String) (user : ScimUser)
      → require_non_empty write.user_name ≡ ok user_name
      → external_id_of write.external_id ≡ ok external_id
      → matching external_id (scoped context existing) ≡ some user
      → create_scim_user lower context write existing id now
        ≡ ok (record { user = user; idempotent_match = true })
  unfolding create_scim_user
  create_matched context write existing id now user_name external_id user named given found =
      rw (named, given, found) refl

  user_name_of :
      (context : ScimContext) (write : ScimUserWrite) (existing : List ScimUser) (id now : String)
      (r : ScimCreateResult)
      → create_scim_user lower context write existing id now ≡ ok r
      → (name : String) × (require_non_empty write.user_name ≡ ok name)
  unfolding create_scim_user
  user_name_of context write existing id now r h =
      let (name, named, rest) = >>=-eq-ok (require_non_empty write.user_name) _ h in (name, named)

  has-external_id :
      (user : ScimUser) (eid : String)
      → user.external_id ≡ some eid
      → has_external_id eid user ≡ true
  has-external_id user eid e = rw (e, ==-self eid) refl

  found_again :
      (context : ScimContext) (write : ScimUserWrite) (existing : List ScimUser) (id now : String)
      (r : ScimCreateResult) (eid : String)
      → external_id_of write.external_id ≡ ok (some eid)
      → Outcome lower context write existing id now r
      → matching (some eid) (scoped context (stored r existing)) ≡ some r.user
  found_again context write existing id now r eid given o =
      let same : ◌≡◌ {A = Option String} o.external_id (some eid) =
        ok_injective (sym o.given ∙ given) in
      elim o.outcome [
        | inl (hit, m) ↦
            let found : matching (some eid) (scoped context existing) ≡ some r.user =
              subst (λ e. matching e (scoped context existing) ≡ some r.user) same m.found in
            rw hit found
        | inr (miss, m) ↦
            let unmatched : matching (some eid) (scoped context existing) ≡ none =
              subst (λ e. matching e (scoped context existing) ≡ none) same m.unmatched in
            rw (miss, scoped-append context existing r.user m.tenant)
              (find_appended (has_external_id eid) (scoped context existing) r.user unmatched
                (has-external_id r.user eid (m.external ∙ same)))
      ]

  -- A creation that is repeated, with any new identifier and time, returns the user of the first
  -- one, where the request names an external identifier.
  pub retry_is_idempotent :
      (context : ScimContext) (write : ScimUserWrite) (existing : List ScimUser)
      (id now id' now' : String) (r : ScimCreateResult) (eid : String)
      → external_id_of write.external_id ≡ ok (some eid)
      → create_scim_user lower context write existing id now ≡ ok r
      → create_scim_user lower context write (stored r existing) id' now'
        ≡ ok (record { user = r.user; idempotent_match = true })
  retry_is_idempotent context write existing id now id' now' r eid given h =
      let (user_name, named) = user_name_of context write existing id now r h in
      create_matched context write (stored r existing) id' now' user_name (some eid) r.user named
        given
        (found_again context write existing id now r eid given
          (creation_sound lower context write existing id now r h))
