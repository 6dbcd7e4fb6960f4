-- ===== src/Scim/Patch.antt =====
-- packages/scim/src/index.ts: `applyScimPatch`, `deprovisionScimUser`.
pub mod Laws
use kommunsign.Prelude.{
  String, Bool, true, false, not, ◌&&◌, ◌||◌, Option, none, some, List, [], ◌∷◌, ◌==◌, ◌!=◌,
  string_eq, includes, if◌then◌else◌, Result, ok, err, ◌>>=◌, ◌>>◌, throw_if,
}
use kommunsign.Scim.Types.{
  ScimError, scim_error, type_error, invalid_value, invalid_path, Value, undefined, null, boolean,
  number, text, array, object, Values, nil, cons, Fields, end, field, ScimUser, ScimContext,
  assert_scim_tenant, require_non_empty, primary_email,
}

pub record ScimPatchOperation : Type 0 where
  pub op : Option String
  pub path : Option String
  pub value : Value

abbrev pub patchable_paths : List String
patchable_paths = "active" ∷ "displayname" ∷ "username" ∷ "externalid" ∷ "emails" ∷ []

-- An optional text that null takes away.
abbrev pub optional_text : Value → Result ScimError (Option String)
optional_text null = ok none
optional_text given = do t ← require_non_empty given; ok (some t)

abbrev pub items_of : Value → Values
items_of (array vs) = vs
items_of other = nil

-- A name of `switch (path.toLowerCase())`.
pub data Attribute : Type 0 where
  is_active is_display_name is_user_name is_external_id is_emails : Attribute
  is_other : Attribute

abbrev pub attribute_of : String → Attribute
attribute_of path =
    if path == "active"
    then is_active
    else if path == "displayname"
    then is_display_name
    else if path == "username"
    then is_user_name
    else if path == "externalid"
    then is_external_id
    else if path == "emails"
    then is_emails
    else is_other

module _ (lower : String → String) where
  abbrev pub boolean_of : Value → Result ScimError Bool
  boolean_of (boolean b) = ok b
  boolean_of (text t) =
      if includes ("true" ∷ "false" ∷ []) (lower t)
      then ok (lower t == "true")
      else err (scim_error invalid_value)
  boolean_of other = err (scim_error invalid_value)

  unfoldable pub set_attribute : Attribute → ScimUser → Value → Result ScimError ScimUser
  set_attribute is_active user value = do
    active ← boolean_of value
    ok (record user { active = active })
  set_attribute is_display_name user value = do
    display_name ← optional_text value
    ok (record user { display_name = display_name })
  set_attribute is_user_name user value = do
    user_name ← require_non_empty value
    ok (record user { user_name = user_name })
  set_attribute is_external_id user value = do
    external_id ← optional_text value
    ok (record user { external_id = external_id })
  set_attribute is_emails user value = do
    email ← primary_email lower (items_of value)
    ok (record user { email = email })
  set_attribute is_other user value = err (scim_error invalid_path)

  abbrev pub apply_single_attribute : ScimUser → String → Value → Result ScimError ScimUser
  apply_single_attribute user path value = set_attribute (attribute_of (lower path)) user value

  -- The loop over `Object.entries`.
  unfoldable pub apply_fields : Fields → ScimUser → Result ScimError ScimUser
  apply_fields end user = ok user
  apply_fields (field key value fields) user = do
    next ← apply_single_attribute user key value
    apply_fields fields next

  -- An operation without a path. The first entry of an array is named "0".
  unfoldable pub apply_object : Value → ScimUser → Result ScimError ScimUser
  apply_object (object fields) user = apply_fields fields user
  apply_object (array nil) user = ok user
  apply_object (array (cons value values)) user = apply_single_attribute user "0" value
  apply_object other user = err (scim_error invalid_value)

  abbrev pub at_path : Option String → String → Value → ScimUser → Result ScimError ScimUser
  at_path none op value user = do
    throw_if (op == "remove") (scim_error invalid_path)
    apply_object value user
  at_path (some path) op value user = do
    throw_if (not (includes patchable_paths (lower path))) (scim_error invalid_path)
    apply_single_attribute user (lower path) (if op == "remove" then null else value)

  -- `operation.op?.toLowerCase()`, where it is one of the three.
  abbrev pub op_of : Option String → Result ScimError String
  op_of none = err (scim_error invalid_value)
  op_of (some op) =
      if includes ("replace" ∷ "add" ∷ "remove" ∷ []) (lower op)
      then ok (lower op)
      else err (scim_error invalid_value)

  unfoldable pub apply_operation : ScimPatchOperation → ScimUser → Result ScimError ScimUser
  apply_operation operation user = do
    op ← op_of operation.op
    at_path operation.path op operation.value user

  unfoldable pub apply_operations : List ScimPatchOperation → ScimUser → Result ScimError ScimUser
  apply_operations [] user = ok user
  apply_operations (operation ∷ operations) user = do
    next ← apply_operation operation user
    apply_operations operations next

  unfoldable pub apply_scim_patch :
      ScimContext → ScimUser → List ScimPatchOperation → String → Result ScimError ScimUser
  apply_scim_patch context user operations now = do
    assert_scim_tenant context user.tenant_id
    next ← apply_operations operations user
    ok (record next { updated_at = now })

pub data Deprovisioning : Type 0 where
  deactivated deleted : Deprovisioning

pub record Deprovisioned : Type 0 where
  pub user : ScimUser
  pub action : Deprovisioning

unfoldable pub deprovision_scim_user :
    ScimContext → ScimUser → Bool → String → Result ScimError Deprovisioned
deprovision_scim_user context user has_history now = do
  assert_scim_tenant context user.tenant_id
  if has_history
      then ok
          (record { user = record user { active = false; updated_at = now }; action = deactivated })
      else ok (record { user = record user { active = false; updated_at = now }; action = deleted })
