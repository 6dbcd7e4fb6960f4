-- ===== src/Tests/Directory.antt =====
-- Runs of packages/scim, and its theorems applied.
use kommunsign.Prelude.{
  String, ◌≡◌, refl, true, false, none, some, List, [], ◌∷◌, arith, Distinct, string_eq, ok, err,
}
use kommunsign.Prelude.Text.{trim, is_blank}
use kommunsign.Prelude.Object.{property}
use kommunsign.Prelude.TextOrder.{text_le}
use kommunsign.GroupRoles.{grant, collect_roles}
use kommunsign.Scim.Types.{
  scim_error, invalid_filter, undefined, boolean, text, object, nil, cons, end, field, ScimUser,
  ScimContext, assert_scim_tenant, require_non_empty, get, field_of, find_primary, primary_email,
}
use kommunsign.Scim.Create.{ScimUserWrite, ScimCreateResult, create_scim_user}
use kommunsign.Scim.Create.Laws.{Outcome, stored, creation_sound}
use kommunsign.Scim.Create.Retry.{retry_is_idempotent}
use kommunsign.Scim.Create.UserNames.{user_names, create_scim_user-Distinct}
use kommunsign.Scim.Patch.{
  ScimPatchOperation, set_attribute, apply_fields, apply_object, apply_operation, apply_operations,
  apply_scim_patch, deprovision_scim_user,
}
use kommunsign.Scim.Patch.Laws.{Keeps, patch-Keeps_identity}
use kommunsign.Scim.Roles.{resolve_scim_roles}
use kommunsign.Scim.Filter.{
  by_user_name, take_word, take_spaces, take_quoted, take_value, match_filter, parse_scim_filter,
}
use kommunsign.Scim.Filter.Laws.{print_filter, filter_roundtrip}
use kommunsign.Scim.Paging.Laws.{read_pages, pages_cover}

-- Texts that are in lower case already.
abbrev lower : String → String
lower s = s

abbrev context : ScimContext
context = record {
  tenant_id = "t";
  client_id = "c";
  request_id = "r";
  assignable_roles = "signer" ∷ [];
  group_to_role =
      record { name = "g"; value = "signer" } ∷ record { name = "h"; value = "admin" } ∷ [];
}

abbrev write : ScimUserWrite
write = record {
  external_id = text "e";
  user_name = text " anna ";
  display_name = undefined;
  emails = some (
      cons (object (field "value" (text "x@y") end))
        (cons (object (field "primary" (boolean true) (field "value" (text "a@b") end))) nil));
  active = none;
}

abbrev anna : ScimUser
anna = record {
  id = "1";
  tenant_id = "t";
  external_id = some "e";
  user_name = "anna";
  display_name = none;
  email = some "a@b";
  active = true;
  roles = [];
  groups = [];
  created_at = "n";
  updated_at = "n";
}

abbrev created : ScimCreateResult
created = record { user = anna; idempotent_match = false }

steps : Unit {0}
unfolding assert_scim_tenant require_non_empty get field_of find_primary primary_email trim is_blank
    create_scim_user set_attribute apply_fields apply_object apply_operation apply_operations
    apply_scim_patch deprovision_scim_user property grant collect_roles resolve_scim_roles text_le
    take_word take_spaces take_quoted take_value match_filter parse_scim_filter
steps = tt

created_run : create_scim_user lower context write [] "1" "n" ≡ ok created
unfolding steps
created_run = refl

creation_sound_example : Outcome lower context write [] "1" "n" created
creation_sound_example = creation_sound lower context write [] "1" "n" created created_run

named_run : require_non_empty (text "e") ≡ ok "e"
unfolding steps
named_run = refl

retry_is_idempotent_example :
    create_scim_user lower context write (stored created []) "2" "m"
    ≡ ok (record { user = anna; idempotent_match = true })
retry_is_idempotent_example =
    retry_is_idempotent lower context write [] "1" "n" "2" "m" created "e" (rw named_run refl)
      created_run

create_scim_user-Distinct_example : Distinct (user_names lower context (stored created []))
create_scim_user-Distinct_example =
    create_scim_user-Distinct lower context write [] "1" "n" created created_run tt

abbrev renaming : List ScimPatchOperation
renaming =
    record { op = some "replace"; path = none; value = object (field "username" (text "anne") end) }
    ∷ record { op = some "remove"; path = some "displayname"; value = undefined }
    ∷ []

patch_run :
    apply_scim_patch lower context anna renaming "m"
    ≡ ok (record anna { user_name = "anne"; updated_at = "m" })
unfolding steps
patch_run = refl

patch-Keeps_identity_example :
    (◌≡◌ {A = String} "t" "t")
    × Keeps anna (record anna { user_name = "anne"; updated_at = "m" })
    × (◌≡◌ {A = String} "m" "m")
patch-Keeps_identity_example =
    patch-Keeps_identity lower context anna renaming "m"
      (record anna { user_name = "anne"; updated_at = "m" }) patch_run

abbrev promoting : ScimPatchOperation
promoting = record { op = some "add"; path = some "roles"; value = text "admin" }

roles_run : resolve_scim_roles context ("x" ∷ "g" ∷ []) ≡ ok ("signer" ∷ [])
unfolding steps
roles_run = refl

filter_run :
    parse_scim_filter lower (some " USERNAME  eq \"anna\" ")
    ≡ ok (some (record { attribute = by_user_name; value = "anna" }))
unfolding steps
filter_run = refl

injected_run :
    parse_scim_filter lower (some "userName eq \"a\" or active eq true")
    ≡ err (scim_error invalid_filter)
unfolding steps
injected_run = refl

filter_roundtrip_example :
    parse_scim_filter lower (some (print_filter lower by_user_name "anna"))
    ≡ ok (some (record { attribute = by_user_name; value = "anna" }))
filter_roundtrip_example =
    filter_roundtrip lower by_user_name "anna"
      ((refl, refl, (refl, refl, (refl, refl, (refl, refl, tt))))) refl

abbrev letters : List String
letters = "a" ∷ "b" ∷ "c" ∷ []

pages_cover_example : read_pages 4 letters 2 1 ≡ some letters
pages_cover_example = pages_cover letters 2 (omega arith)
