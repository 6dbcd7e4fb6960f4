-- ===== src/Scim/Patch/Laws.antt =====
-- What a patch can change, what it refuses, and how a user leaves.
use kommunsign.Prelude.{
  String, ◌≡◌, ◌≢◌, refl, sym, ap, ◌∙◌, subst, Bool, true, false, not, Option, none, some, List, [],
  ◌∷◌, arith, inl, inr, Bool-cases, any, includes, if◌then◌else◌, ◌==◌, ◌!=◌, ==_iff, string_eq,
  Result, ok, err, Result-cases, ◌>>=◌, throw_if, >>=-eq-ok, >>-eq-ok, throw_if-eq-ok, ok_injective,
}
use kommunsign.Scim.Types.{
  ScimError, scim_error, invalid_path, Value, undefined, null, boolean, number, text, array, object,
  nil, cons, Fields, end, field, ScimUser, ScimContext, assert_scim_tenant, require_non_empty,
  primary_email,
}
use kommunsign.Scim.Patch.{
  ScimPatchOperation, patchable_paths, optional_text, items_of, Attribute, is_active,
  is_display_name, is_user_name, is_external_id, is_emails, is_other, attribute_of, boolean_of,
  set_attribute, apply_single_attribute, apply_fields, apply_object, at_path, op_of,
  apply_operation, apply_operations, apply_scim_patch, deprovision_scim_user,
}

-- What the directory does not own stays as it was.
pub record Keeps (user out : ScimUser) : Type 0 where
  pub id : out.id ≡ user.id
  pub tenant : out.tenant_id ≡ user.tenant_id
  pub roles : out.roles ≡ user.roles
  pub groups : out.groups ≡ user.groups
  pub created : out.created_at ≡ user.created_at

Keeps-refl : (user : ScimUser) → Keeps user user
Keeps-refl user = record { id = refl; tenant = refl; roles = refl; groups = refl; created = refl }

Keeps-trans : {a b c : ScimUser} → Keeps a b → Keeps b c → Keeps a c
Keeps-trans h k = record {
  id = k.id ∙ h.id;
  tenant = k.tenant ∙ h.tenant;
  roles = k.roles ∙ h.roles;
  groups = k.groups ∙ h.groups;
  created = k.created ∙ h.created;
}

-- Of the tenant of the credential.
own_tenant :
    (context : ScimContext) (tenant_id : String)
    → assert_scim_tenant context tenant_id ≡ ok tt
    → tenant_id ≡ context.tenant_id
unfolding assert_scim_tenant
own_tenant context tenant_id h =
    (==_iff tenant_id context.tenant_id).0
      (ground (arith, throw_if-eq-ok (tenant_id != context.tenant_id) _ h))

-- A change that a value makes.
kept_by {ℓ} :
    {A : Type ℓ} (read : Result ScimError A) (user : ScimUser) (change : A → ScimUser)
    (out : ScimUser)
    → ((a : A) → Keeps user (change a))
    → (read >>= λ a. ok (change a)) ≡ ok out
    → Keeps user out
kept_by (err e) user change out keeps h = absurd (cc)
kept_by (ok a) user change out keeps h = subst (Keeps user) (ok_injective h) (keeps a)

module _ (lower : String → String) where
  set_attribute-Keeps :
      (attribute : Attribute) (user : ScimUser) (value : Value) (out : ScimUser)
      → set_attribute lower attribute user value ≡ ok out
      → Keeps user out
  unfolding set_attribute
  set_attribute-Keeps is_active user value out h =
      kept_by (boolean_of lower value) user (λ b. record user { active = b }) out
        (λ a. ground arith) h
  set_attribute-Keeps is_display_name user value out h =
      kept_by (optional_text value) user (λ t. record user { display_name = t }) out
        (λ a. ground arith) h
  set_attribute-Keeps is_user_name user value out h =
      kept_by (require_non_empty value) user (λ t. record user { user_name = t }) out
        (λ a. ground arith) h
  set_attribute-Keeps is_external_id user value out h =
      kept_by (optional_text value) user (λ t. record user { external_id = t }) out
        (λ a. ground arith) h
  set_attribute-Keeps is_emails user value out h =
      kept_by (primary_email lower (items_of value)) user (λ t. record user { email = t }) out
        (λ a. ground arith) h
  set_attribute-Keeps is_other user value out h = absurd (cc)

  apply_fields-Keeps :
      (fields : Fields) (user out : ScimUser)
      → apply_fields lower fields user ≡ ok out
      → Keeps user out
  unfolding apply_fields
  apply_fields-Keeps end user out h = subst (Keeps user) (ok_injective h) (Keeps-refl user)
  apply_fields-Keeps (field key value fields) user out h =
      let (next, ran, rest) = >>=-eq-ok (apply_single_attribute lower user key value) _ h in
      Keeps-trans (set_attribute-Keeps (attribute_of (lower key)) user value next ran)
        (apply_fields-Keeps fields next out rest)

  apply_object-Keeps :
      (value : Value) (user out : ScimUser)
      → apply_object lower value user ≡ ok out
      → Keeps user out
  unfolding apply_object
  apply_object-Keeps (object fields) user out h = apply_fields-Keeps fields user out h
  apply_object-Keeps (array nil) user out h = subst (Keeps user) (ok_injective h) (Keeps-refl user)
  apply_object-Keeps (array (cons v vs)) user out h =
      set_attribute-Keeps (attribute_of (lower "0")) user v out h
  apply_object-Keeps undefined user out h = absurd (cc)
  apply_object-Keeps null user out h = absurd (cc)
  apply_object-Keeps (boolean b) user out h = absurd (cc)
  apply_object-Keeps (number n) user out h = absurd (cc)
  apply_object-Keeps (text t) user out h = absurd (cc)

  at_path-Keeps :
      (path : Option String) (op : String) (value : Value) (user out : ScimUser)
      → at_path lower path op value user ≡ ok out
      → Keeps user out
  at_path-Keeps none op value user out h =
      let (kept, rest) = >>-eq-ok (throw_if (op == "remove") (scim_error invalid_path)) _ h in
      apply_object-Keeps value user out rest
  at_path-Keeps (some path) op value user out h =
      let (kept, rest) =
        >>-eq-ok (throw_if (not (includes patchable_paths (lower path))) (scim_error invalid_path))
          _ h in
      set_attribute-Keeps (attribute_of (lower (lower path))) user
        (if op == "remove" then null else value) out rest

  apply_operations-Keeps :
      (operations : List ScimPatchOperation) (user out : ScimUser)
      → apply_operations lower operations user ≡ ok out
      → Keeps user out
  unfolding apply_operations apply_operation
  apply_operations-Keeps [] user out h = subst (Keeps user) (ok_injective h) (Keeps-refl user)
  apply_operations-Keeps (o ∷ os) user out h =
      let (next, ran, rest) = >>=-eq-ok (apply_operation lower o user) _ h in
      let (op, read, done) = >>=-eq-ok (op_of lower o.op) _ ran in
      Keeps-trans (at_path-Keeps o.path op o.value user next done)
        (apply_operations-Keeps os next out rest)

  -- A patch that succeeds is of a user of the credential's tenant, and whatever its operations, the
  -- user keeps identifier, tenant, roles, groups and the time of creation.
  pub patch-Keeps_identity :
      (context : ScimContext) (user : ScimUser) (operations : List ScimPatchOperation)
      (now : String) (out : ScimUser)
      → apply_scim_patch lower context user operations now ≡ ok out
      → (user.tenant_id ≡ context.tenant_id) × Keeps user out × (out.updated_at ≡ now)
  unfolding apply_scim_patch
  patch-Keeps_identity context user operations now out h =
      let (tenant, rest) = >>-eq-ok (assert_scim_tenant context user.tenant_id) _ h in
      let (next, ran, built) = >>=-eq-ok (apply_operations lower operations user) _ rest in
      let same = ok_injective built in
      let kept = apply_operations-Keeps operations user next ran in
      (
        own_tenant context user.tenant_id tenant,
        subst (Keeps user) same (record {
          id = kept.id;
          tenant = kept.tenant;
          roles = kept.roles;
          groups = kept.groups;
          created = kept.created;
        }),
        ap (λ (u : ScimUser). u.updated_at) (sym same),
      )

  -- The operation names an attribute that the directory does not own.
  abbrev pub names_foreign : ScimPatchOperation → Bool
  names_foreign operation = elim operation.path [
    | none ↦ false
    | some path ↦ not (includes patchable_paths (lower path))
  ]

  foreign_fails :
      (path : Option String) (op : String) (value : Value) (user next : ScimUser)
      → (elim path [ none ↦ false | some p ↦ not (includes patchable_paths (lower p)) ]) ≡ true
      → at_path lower path op value user ≢ ok next
  foreign_fails none op value user next foreign h = cc
  foreign_fails (some p) op value user next foreign h =
      let (kept, rest) =
        >>-eq-ok (throw_if (not (includes patchable_paths (lower p))) (scim_error invalid_path)) _
          h in
      let no = throw_if-eq-ok (not (includes patchable_paths (lower p))) _ kept in cc

  -- A patch with an operation on an attribute that the directory does not own never succeeds,
  -- whatever the other operations do.
  pub foreign_attribute_refused :
      (operations : List ScimPatchOperation) (user out : ScimUser)
      → any names_foreign operations ≡ true
      → apply_operations lower operations user ≢ ok out
  unfolding apply_operations apply_operation
  foreign_attribute_refused [] user out foreign h = cc
  foreign_attribute_refused (o ∷ os) user out foreign h =
      let (next, ran, rest) = >>=-eq-ok (apply_operation lower o user) _ h in
      let (op, read, done) = >>=-eq-ok (op_of lower o.op) _ ran in
      elim (Bool-cases (names_foreign o)) [
        | inl here ↦ foreign_fails o.path op o.value user next here done
        | inr other ↦ foreign_attribute_refused os next out (rw other at foreign) rest
      ]

  abbrev pub deactivation : ScimPatchOperation
  deactivation = record { op = some "replace"; path = some "active"; value = boolean false }

  -- Where `toLowerCase` leaves these two words as they are, a directory that replaces `active` by
  -- false, and one that deletes a user with a history, come to the same user, and to the same error
  -- for a user of another tenant.
  pub deletion_is_deactivation :
      (context : ScimContext) (user : ScimUser) (now : String)
      → lower "replace" ≡ "replace"
      → lower "active" ≡ "active"
      → apply_scim_patch lower context user (deactivation ∷ []) now
        ≡ (deprovision_scim_user context user true now >>= λ d. ok d.user)
  unfolding apply_scim_patch apply_operations apply_operation set_attribute deprovision_scim_user
  deletion_is_deactivation context user now word path =
      elim (Result-cases (assert_scim_tenant context user.tenant_id)) [
        | inl (done, own) ↦ rw (own, word, path, path) refl
        | inr (thrown, foreign) ↦ rw foreign refl
      ]
