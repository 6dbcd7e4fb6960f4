-- ===== src/Scim/Types.antt =====
-- packages/scim/src/index.ts: its data, the values that come in from outside, and the check of the
-- tenant.
use kommunsign.Prelude.{
  ℕ, String, Bool, true, false, Option, none, some, List, ◌==◌, ◌!=◌, string_eq, if◌then◌else◌,
  Result, ok, err, ◌>>=◌, throw_if,
}
use kommunsign.Prelude.Text.{codes, trim, is_blank, includes_text}
use kommunsign.Prelude.Object.{Property}

pub data ScimErrorCode : Type 0 where
  tenant_mismatch invalid_value invalid_filter invalid_path uniqueness : ScimErrorCode
  not_found mutability invalid_pagination role_not_assignable : ScimErrorCode

-- The error of the module, or the TypeError of reading a field of null or undefined.
pub data ScimError : Type 0 where
  scim_error : ScimErrorCode → ScimError
  type_error : ScimError

unfoldable pub scim_status : ScimErrorCode → ℕ
scim_status tenant_mismatch = 404
scim_status invalid_value = 400
scim_status invalid_filter = 400
scim_status invalid_path = 400
scim_status uniqueness = 409
scim_status not_found = 404
scim_status mutability = 400
scim_status invalid_pagination = 400
scim_status role_not_assignable = 400

-- A value of type `unknown`. Of a number only counts whether it is true as a test, that is, neither
-- 0 nor NaN. The fields stand in the order of `Object.entries`, each name once.
mutual
  pub data Value : Type 0 where
    undefined null : Value
    boolean : Bool → Value
    number : Bool → Value
    text : String → Value
    array : Values → Value
    object : Fields → Value

  pub data Values : Type 0 where
    nil : Values
    cons : Value → Values → Values

  pub data Fields : Type 0 where
    end : Fields
    field : String → Value → Fields → Fields

pub record ScimUser : Type 0 where
  pub id : String
  pub tenant_id : String
  pub external_id : Option String
  pub user_name : String
  pub display_name : Option String
  pub email : Option String
  pub active : Bool
  pub roles : List String
  pub groups : List String
  pub created_at : String
  pub updated_at : String

pub record ScimContext : Type 0 where
  pub tenant_id : String
  pub client_id : String
  pub request_id : String
  pub assignable_roles : List String
  pub group_to_role : List (Property String)

unfoldable pub assert_scim_tenant : ScimContext → String → Result ScimError (Unit {0})
assert_scim_tenant context tenant_id =
    throw_if (tenant_id != context.tenant_id) (scim_error tenant_mismatch)

unfoldable pub require_non_empty : Value → Result ScimError String
require_non_empty (text t) = if is_blank t then err (scim_error invalid_value) else ok (trim t)
require_non_empty other = err (scim_error invalid_value)

-- `value[name]`, for a name that no prototype has.
unfoldable pub field_of : String → Fields → Value
field_of name end = undefined
field_of name (field n v fields) = let rest = field_of name fields in if n == name then v else rest

unfoldable pub get : String → Value → Result ScimError Value
get name undefined = err type_error
get name null = err type_error
get name (boolean b) = ok undefined
get name (number n) = ok undefined
get name (text t) = ok undefined
get name (array vs) = ok undefined
get name (object fields) = ok (field_of name fields)

-- A value as a test.
abbrev pub is_true : Value → Bool
is_true undefined = false
is_true null = false
is_true (boolean b) = b
is_true (number n) = n
is_true (text String.[]) = false
is_true (text (String.◌∷◌ c s)) = true
is_true (array vs) = true
is_true (object fields) = true

-- `emails.find((entry) => entry.primary) ?? emails[0]`, and its `?.value`.
unfoldable pub find_primary : Values → Result ScimError (Option Value)
find_primary nil = ok none
find_primary (cons entry entries) = do
  let rest = find_primary entries
  primary ← get "primary" entry
  if is_true primary then ok (some entry) else rest

abbrev pub first_or : Option Value → Values → Option Value
first_or (some entry) entries = some entry
first_or none nil = none
first_or none (cons entry entries) = some entry

abbrev pub value_of : Option Value → Result ScimError Value
value_of none = ok undefined
value_of (some entry) = get "value" entry

-- `lower` is `toLowerCase`, by the tables of Unicode.
module _ (lower : String → String) where
  abbrev pub email_of : Value → Option String
  email_of (text t) = if includes_text (codes "@") (codes t) then some (lower (trim t)) else none
  email_of other = none

  unfoldable pub primary_email : Values → Result ScimError (Option String)
  primary_email emails = do
    found ← find_primary emails
    value ← value_of (first_or found emails)
    ok (email_of value)
