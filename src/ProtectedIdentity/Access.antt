-- ===== src/ProtectedIdentity/Access.antt =====
-- Who may look at a protected person's data, and how strict a level is taken for.
use kommunsign.Prelude.{
  ℕ, String, ◌≡◌, ◌≢◌, ◌↔◌, refl, true, false, not, ◌&&◌, Option, none, some, List, [], ◌∷◌, ◌++◌,
  arith, ok, throw_if, eq_iff, All, All-map, for_each-All,
}
use kommunsign.Prelude.Text.{codes, is_blank, starts_with, includes_text}
use kommunsign.Prelude.Number.{is_at_most}
use kommunsign.ProtectedIdentity.{
  SupportAccessGrant, SupportRequest, assert_support_access, assert_subject_line_is_safe,
  disclosure_forbidden,
}

-- A grant of the customer, with a reason, for this person and this actor, that has not expired.
pub record Covers (grant : SupportAccessGrant) (request : SupportRequest) : Type 0 where
  pub tenant : grant.tenant_id ≡ request.tenant_id
  pub subject : grant.subject_id ≡ request.subject_id
  pub actor : grant.granted_to ≡ request.actor_id
  pub by_customer : grant.granted_by_customer ≡ true
  pub reasoned : is_blank grant.reason ≡ false
  pub running : is_at_most grant.expires_at request.now ≡ false

covers :
    (grant : SupportAccessGrant) (request : SupportRequest)
    → assert_support_access (some grant) request ≡ ok tt
    → Covers grant request
unfolding assert_support_access
covers grant request h = record {
  tenant = ground (arith, eq_iff grant.tenant_id request.tenant_id);
  subject = ground (arith, eq_iff grant.subject_id request.subject_id);
  actor = ground (arith, eq_iff grant.granted_to request.actor_id);
  by_customer = ground arith;
  reasoned = ground arith;
  running = ground arith;
}

covered :
    (grant : SupportAccessGrant) (request : SupportRequest)
    → Covers grant request
    → assert_support_access (some grant) request ≡ ok tt
unfolding assert_support_access
covered grant request c = ground (
  arith,
  c.by_customer,
  c.reasoned,
  c.running,
  (eq_iff grant.tenant_id request.tenant_id).1 c.tenant,
  (eq_iff grant.subject_id request.subject_id).1 c.subject,
  (eq_iff grant.granted_to request.actor_id).1 c.actor,
)

no_grant : (request : SupportRequest) → assert_support_access none request ≢ ok tt
unfolding assert_support_access
no_grant request h = cc

some_injective :
    {a b : SupportAccessGrant} → ◌≡◌ {A = Option SupportAccessGrant} (some a) (some b) → a ≡ b
some_injective h = cc

-- Support sees a protected person's data exactly by a grant that covers the request; without one it
-- never does.
pub support_access_iff :
    (grant : Option SupportAccessGrant) (request : SupportRequest)
    → (assert_support_access grant request ≡ ok tt)
      ↔ ((given : SupportAccessGrant) × (grant ≡ some given) × Covers given request)
support_access_iff none request =
    (λ h. absurd (no_grant request h), λ c. absurd (ground (arith, c.1)))
support_access_iff (some grant) request = (
  λ h. (grant, refl, covers grant request h),
  λ c. covered grant request (rw (some_injective c.1) c.2),
)

-- A part of a text, with what stands before and behind it.
pub IsPartOf : List ℕ → List ℕ → Type 0
IsPartOf part text = (before : List ℕ) × ((behind : List ℕ) × (text ≡ before ++ (part ++ behind)))

starts : (part behind : List ℕ) → starts_with part (part ++ behind) ≡ true
starts [] behind = refl
starts (c ∷ part) behind = ground (arith, starts part behind)

found_here : (part text : List ℕ) → starts_with part text ≡ true → includes_text part text ≡ true
found_here part [] h = h
found_here part (c ∷ text) h = ground arith

part_found : (part before behind : List ℕ) → includes_text part (before ++ (part ++ behind)) ≡ true
part_found part [] behind = found_here part (part ++ behind) (starts part behind)
part_found part (c ∷ before) behind = ground (arith, part_found part before behind)

-- The check of one identifier.
checked :
    (subject identifier : String)
    → throw_if
        (not (is_blank identifier) && includes_text (codes identifier) (codes subject))
        disclosure_forbidden
      ≡ ok tt
    → is_blank identifier ≡ false
    → IsPartOf (codes identifier) (codes subject)
    → ⊥
unfolding IsPartOf
checked subject identifier h named (before, (behind, e)) =
    let found : includes_text (codes identifier) (codes subject) ≡ true =
      rw e (part_found (codes identifier) before behind) in
    ground (arith, h, named, found)

-- A subject line that is let pass contains none of the identifiers that are more than white space.
pub subject_line_sound :
    (subject : String) (identifiers : List String)
    → assert_subject_line_is_safe subject identifiers ≡ ok tt
    → All
        (λ identifier.
          is_blank identifier ≡ false → IsPartOf (codes identifier) (codes subject) → ⊥)
        identifiers
unfolding assert_subject_line_is_safe
subject_line_sound subject identifiers h =
    All-map (checked subject) identifiers (for_each-All identifiers _ h)
