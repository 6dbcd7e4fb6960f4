-- ===== src/Scim/Create/Laws.antt =====
-- What creating a user leaves behind.
use kommunsign.Prelude.{
  String, ◌≡◌, refl, sym, ap, Bool, true, false, Option, none, some, List, [], ◌∷◌, ◌++◌, ◌⊎◌, inl,
  inr, Bool-cases, find, if◌then◌else◌, ◌==◌, ==_iff, string_eq, ok, throw_if, >>=-eq-ok, >>-eq-ok,
  throw_if-eq-ok, ok_injective,
}
use kommunsign.Scim.Types.{
  scim_error, uniqueness, ScimUser, ScimContext, require_non_empty, primary_email,
}
use kommunsign.Scim.Create.{
  ScimUserWrite, ScimCreateResult, external_id_of, or_nil, has_external_id, scoped, matching,
  is_taken, match_or_create, create_scim_user,
}

-- What the store holds afterwards: a user that was matched is there already.
abbrev pub stored : ScimCreateResult → List ScimUser → List ScimUser
stored result existing = if result.idempotent_match then existing else existing ++ result.user ∷ []

found_has :
    (p : ScimUser → Bool) (users : List ScimUser) (user : ScimUser)
    → find p users ≡ some user
    → p user ≡ true
found_has p [] user h = absurd (cc)
found_has p (u ∷ us) user h = elim (Bool-cases (p u)) [
  | inl hit ↦
      let found : ◌≡◌ {A = Option ScimUser} (some u) (some user) = rw hit at h in
      let same : u ≡ user = cc in rw (sym same) hit
  | inr miss ↦ found_has p us user (rw miss at h)
]

pub scoped-append :
    (context : ScimContext) (users : List ScimUser) (user : ScimUser)
    → user.tenant_id ≡ context.tenant_id
    → scoped context (users ++ user ∷ []) ≡ scoped context users ++ user ∷ []
scoped-append context [] user same = rw ((==_iff user.tenant_id context.tenant_id).1 same) refl
scoped-append context (u ∷ us) user same = elim (Bool-cases (u.tenant_id == context.tenant_id)) [
  | inl here ↦ rw here (ap (λ l. u ∷ l) (scoped-append context us user same))
  | inr other ↦ rw other (scoped-append context us user same)
]

scoped_tenant :
    (context : ScimContext) (p : ScimUser → Bool) (users : List ScimUser) (user : ScimUser)
    → find p (scoped context users) ≡ some user
    → user.tenant_id ≡ context.tenant_id
scoped_tenant context p [] user h = absurd (cc)
scoped_tenant context p (u ∷ us) user h = elim (Bool-cases (u.tenant_id == context.tenant_id)) [
  | inr other ↦ scoped_tenant context p us user (rw other at h)
  | inl here ↦
      let open_h : (if p u then some u else find p (scoped context us)) ≡ some user =
        rw here at h in
      elim (Bool-cases (p u)) [
        | inr miss ↦ scoped_tenant context p us user (rw miss at open_h)
        | inl hit ↦
            let found : ◌≡◌ {A = Option ScimUser} (some u) (some user) = rw hit at open_h in
            let same : u ≡ user = cc in
            rw (sym same) ((==_iff u.tenant_id context.tenant_id).0 here)
      ]
]

module _ (lower : String → String) where
  -- A user that was there and has the external identifier, or a new one that takes no user name of
  -- the tenant and holds no role.
  pub record IsMatched (context : ScimContext) (external_id : Option String)
      (existing : List ScimUser) (user : ScimUser) : Type 0 where
    pub tenant : user.tenant_id ≡ context.tenant_id
    pub found : matching external_id (scoped context existing) ≡ some user

  pub record IsCreated (context : ScimContext) (external_id : Option String)
      (existing : List ScimUser) (id now : String) (user : ScimUser) : Type 0 where
    pub identity : user.id ≡ id
    pub tenant : user.tenant_id ≡ context.tenant_id
    pub external : user.external_id ≡ external_id
    pub unmatched : matching external_id (scoped context existing) ≡ none
    pub free : is_taken lower user.user_name (scoped context existing) ≡ false
    pub no_roles : user.roles ≡ []
    pub no_groups : user.groups ≡ []

  -- How a creation that succeeds went.
  pub record Outcome (context : ScimContext) (write : ScimUserWrite) (existing : List ScimUser)
      (id now : String) (r : ScimCreateResult) : Type 0 where
    pub external_id : Option String
    pub given : external_id_of write.external_id ≡ ok external_id
    pub outcome :
        ((r.idempotent_match ≡ true) × IsMatched context external_id existing r.user)
        ⊎ ((r.idempotent_match ≡ false) × IsCreated context external_id existing id now r.user)

  outcome_of :
      (matched : Option ScimUser) (context : ScimContext) (write : ScimUserWrite)
      (user_name : String) (external_id : Option String) (existing : List ScimUser)
      (id now : String) (r : ScimCreateResult)
      → matching external_id (scoped context existing) ≡ matched
      → match_or_create lower matched context write user_name external_id
          (scoped context existing)
          id
          now
        ≡ ok r
      → ((r.idempotent_match ≡ true) × IsMatched context external_id existing r.user)
        ⊎ ((r.idempotent_match ≡ false) × IsCreated context external_id existing id now r.user)
  outcome_of (some user) context write user_name none existing id now r at h = absurd (cc)
  outcome_of (some user) context write user_name (some eid) existing id now r at h =
      let same = ok_injective h in
      rw (sym same) (
        inl (
          refl,
          record {
            tenant = scoped_tenant context (has_external_id eid) existing user at;
            found = at;
          },
        ))
  outcome_of none context write user_name external_id existing id now r at h =
      let (free, rest) =
        >>-eq-ok
          (throw_if (is_taken lower user_name (scoped context existing)) (scim_error uniqueness)) _
          h in
      let (email, ran, built) = >>=-eq-ok (primary_email lower (or_nil write.emails)) _ rest in
      let same = ok_injective built in
      rw (sym same) (
        inr (
          refl,
          record {
            identity = refl;
            tenant = refl;
            external = refl;
            unmatched = at;
            free = throw_if-eq-ok (is_taken lower user_name (scoped context existing)) _ free;
            no_roles = refl;
            no_groups = refl;
          },
        ))

  -- A creation that succeeds either returns the user of the tenant that has the external
  -- identifier, or a user of the tenant that is new, takes no user name of the tenant and holds no
  -- role and no group.
  pub creation_sound :
      (context : ScimContext) (write : ScimUserWrite) (existing : List ScimUser) (id now : String)
      (r : ScimCreateResult)
      → create_scim_user lower context write existing id now ≡ ok r
      → Outcome context write existing id now r
  unfolding create_scim_user
  creation_sound context write existing id now r h =
      let (user_name, named, rest) = >>=-eq-ok (require_non_empty write.user_name) _ h in
      let (external_id, given, last) = >>=-eq-ok (external_id_of write.external_id) _ rest in
      record {
        external_id = external_id;
        given = given;
        outcome =
            outcome_of (matching external_id (scoped context existing)) context write user_name
              external_id existing id now r refl last;
      }
