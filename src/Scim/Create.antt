-- ===== src/Scim/Create.antt =====
-- packages/scim/src/index.ts: `createScimUser`.
pub mod Laws
pub mod Retry
pub mod UserNames
use kommunsign.Prelude.{
  String, Bool, true, false, Option, none, some, List, [], ◌==◌, string_eq, filter, find, any,
  if◌then◌else◌, Result, ok, err, ◌>>=◌, ◌>>◌, throw_if,
}
use kommunsign.Prelude.Text.{trim}
use kommunsign.Scim.Types.{
  ScimError, scim_error, uniqueness, Value, undefined, text, Values, nil, ScimUser, ScimContext,
  require_non_empty, primary_email,
}

-- The body of the request; `emails` and `active` are of their types, the rest is checked.
pub record ScimUserWrite : Type 0 where
  pub external_id : Value
  pub user_name : Value
  pub display_name : Value
  pub emails : Option Values
  pub active : Option Bool

pub record ScimCreateResult : Type 0 where
  pub user : ScimUser
  pub idempotent_match : Bool

abbrev pub external_id_of : Value → Result ScimError (Option String)
external_id_of undefined = ok none
external_id_of given = do id ← require_non_empty given; ok (some id)

abbrev pub display_name_of : Value → Option String
display_name_of (text t) = some (trim t)
display_name_of other = none

abbrev pub or_nil : Option Values → Values
or_nil none = nil
or_nil (some emails) = emails

abbrev pub or_true : Option Bool → Bool
or_true none = true
or_true (some active) = active

abbrev pub has_external_id : String → ScimUser → Bool
has_external_id id user = elim user.external_id [ none ↦ false | some other ↦ other == id ]

abbrev pub scoped : ScimContext → List ScimUser → List ScimUser
scoped context existing = filter (λ (user : ScimUser). user.tenant_id == context.tenant_id) existing

-- The user of the tenant that has the external identifier.
abbrev pub matching : Option String → List ScimUser → Option ScimUser
matching none users = none
matching (some id) users = find (has_external_id id) users

module _ (lower : String → String) where
  abbrev pub is_taken : String → List ScimUser → Bool
  is_taken user_name users =
      any (λ (user : ScimUser). lower user.user_name == lower user_name) users

  -- What follows the search for the external identifier.
  abbrev pub match_or_create :
      Option ScimUser
      → ScimContext
      → ScimUserWrite
      → String
      → Option String
      → List ScimUser
      → String
      → String
      → Result ScimError ScimCreateResult
  match_or_create (some user) context write user_name external_id users id now =
      ok (record { user = user; idempotent_match = true })
  match_or_create none context write user_name external_id users id now = do
    throw_if (is_taken user_name users) (scim_error uniqueness)
    email ← primary_email lower (or_nil write.emails)
    ok (record {
      user = record {
        id = id;
        tenant_id = context.tenant_id;
        external_id = external_id;
        user_name = user_name;
        display_name = display_name_of write.display_name;
        email = email;
        active = or_true write.active;
        roles = [];
        groups = [];
        created_at = now;
        updated_at = now;
      };
      idempotent_match = false;
    })

  unfoldable pub create_scim_user :
      ScimContext
      → ScimUserWrite
      → List ScimUser
      → String
      → String
      → Result ScimError ScimCreateResult
  create_scim_user context write existing id now = do
    user_name ← require_non_empty write.user_name
    external_id ← external_id_of write.external_id
    match_or_create (matching external_id (scoped context existing)) context write user_name
        external_id (scoped context existing) id now
