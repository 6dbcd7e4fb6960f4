-- ===== src/Federation/Admission/Laws.antt =====
-- Which assertions log someone in.
use kommunsign.Prelude.{
  ℕ, ◌+◌, ◌*◌, ◌≤◌, ◌<◌, String, ◌≡◌, refl, ap, ◌↔◌, ◌⊎◌, inl, inr, Bool, true, false, Option, none,
  some, List, [], ◌∷◌, arith, ltb, leb, is_empty, includes, ◌==◌, ◌!=◌, ==_iff, string_eq,
  if◌then◌else◌, Bool-cases, Result, ok, err, ◌>>=◌, ◌>>◌, throw_if, >>-eq-ok, throw_if-eq-ok,
}
use kommunsign.Prelude.Number.{IsoDateTime, unparsable, instant}
use kommunsign.Prelude.Text.{is_blank}
use kommunsign.Federation.Types.{
  FederationConfig, WorkforceAssertion, FederationRequestBinding, AssertionLedger, FederationError,
  instant_of, rejected, assertion_expired, session_too_old,
}
use kommunsign.Federation.Admission.{
  answers_other, check_not_before, is_other_context, check_binding, check_times, check_person,
  consume_and_check, after_checks, verify_workforce_assertion,
}

-- The validity has begun, where the assertion says when.
abbrev pub HasBegun : Option IsoDateTime → ℕ → Type 0
HasBegun none now = Unit
HasBegun (some unparsable) now = ⊥
HasBegun (some (instant from)) now = from ≤ now

-- The text holds a time, and the condition holds of it.
abbrev pub AtTime : IsoDateTime → (ℕ → Type 0) → Type 0
AtTime unparsable P = ⊥
AtTime (instant t) P = P t

abbrev pub IsAccepted : Option String → List String → Type 0
IsAccepted none required = ⊥
IsAccepted (some context) required = includes required context ≡ true

-- The assertion answers the request, for this tenant, service and endpoint.
pub record IsBound (a : WorkforceAssertion) (c : FederationConfig) (b : FederationRequestBinding)
    : Type 0 where
  pub enabled : c.enabled ≡ true
  pub signed : a.signature_verified ≡ true
  pub tenant : c.tenant_id ≡ b.tenant_id
  pub issuer : a.issuer ≡ c.issuer
  pub audience : a.audience ≡ c.audience
  pub configured : a.destination ≡ c.destination
  pub requested : a.destination ≡ b.redirect_uri
  pub answers : a.in_response_to ≡ some b.request_id

-- It is valid now, and the session behind it young enough.
pub record IsCurrent (a : WorkforceAssertion) (c : FederationConfig) (now : ℕ) : Type 0 where
  pub begun : HasBegun a.not_before now
  pub unexpired : AtTime a.not_on_or_after (λ until. now < until)
  pub recent :
      AtTime a.authenticated_at (λ at. now ≤ at + c.maximum_authentication_age_seconds * 1000)

-- And its subject and its strength suffice.
pub record IsSufficient (a : WorkforceAssertion) (c : FederationConfig) : Type 0 where
  pub context :
      (c.required_authn_contexts ≡ []) ⊎ IsAccepted a.authn_context c.required_authn_contexts
  pub named : is_blank a.subject ≡ false

differ : (a b : String) → ((a != b) ≡ false) ↔ (a ≡ b)
differ a b = (
  λ h. (==_iff a b).0 (ground (arith, h)),
  λ e. let s : (a == b) ≡ true = (==_iff a b).1 e in rw s refl,
)

answers_lem :
    (given : Option String) (id : String) → (answers_other given id ≡ false) ↔ (given ≡ some id)
answers_lem none id = (λ h. absurd (cc), λ h. absurd (cc))
answers_lem (some g) id = (λ h. ap some ((differ g id).0 h), λ h. (differ g id).1 (cc))

guarded {ℓ} :
    {E : Type 0} {A : Type ℓ} (test : Bool) (e : E) (rest : Result E A) (a : A)
    → ((throw_if test e >> rest) ≡ ok a) ↔ ((test ≡ false) × (rest ≡ ok a))
guarded true e rest a = (λ h. absurd (cc), λ h. absurd (cc))
guarded false e rest a = (λ h. (refl, h), λ h. h.1)

IsBound-iff :
    (a : WorkforceAssertion) (c : FederationConfig) (b : FederationRequestBinding)
    → (check_binding a c b ≡ ok tt) ↔ IsBound a c b
unfolding check_binding
IsBound-iff a c b =
    let tenant = ==_iff c.tenant_id b.tenant_id in
    let issuer = ==_iff a.issuer c.issuer in
    let audience = ==_iff a.audience c.audience in
    let configured = ==_iff a.destination c.destination in
    let requested = ==_iff a.destination b.redirect_uri in
    let answers = answers_lem a.in_response_to b.request_id in
    (λ h. ground arith, λ h. ground arith)

HasBegun-iff :
    (from : Option IsoDateTime) (now : ℕ) → (check_not_before from now ≡ ok tt) ↔ HasBegun from now
HasBegun-iff none now = (λ h. tt, λ h. refl)
HasBegun-iff (some unparsable) now = (λ h. absurd (cc), λ h. absurd h)
HasBegun-iff (some (instant t)) now = (λ h. ground arith, λ h. ground arith)

expired :
    (until : IsoDateTime) (now : ℕ) (rest : Result FederationError (Unit {0}))
    → ((do
      t ← instant_of until assertion_expired
      throw_if (leb t now) (rejected assertion_expired)
      rest)
        ≡ ok tt)
      ↔ (AtTime until (λ t. now < t) × (rest ≡ ok tt))
expired unparsable now rest = (λ h. absurd (cc), λ h. absurd h.0)
expired (instant t) now rest = (λ h. ground arith, λ h. ground arith)

recent_iff :
    (at : IsoDateTime) (now age : ℕ)
    → ((do
      t ← instant_of at session_too_old
      throw_if (ltb (t + age) now) (rejected session_too_old))
        ≡ ok tt)
      ↔ AtTime at (λ t. now ≤ t + age)
recent_iff unparsable now age = (λ h. absurd (cc), λ h. absurd h)
recent_iff (instant t) now age = (λ h. ground arith, λ h. ground arith)

IsCurrent-iff :
    (a : WorkforceAssertion) (c : FederationConfig) (now : ℕ)
    → (check_times a c now ≡ ok tt) ↔ IsCurrent a c now
unfolding check_times
IsCurrent-iff a c now =
    let begun = HasBegun-iff a.not_before now in
    let age : ℕ = c.maximum_authentication_age_seconds * 1000 in
    let recent = recent_iff a.authenticated_at now age in
    let until = expired a.not_on_or_after now (do
      t ← instant_of a.authenticated_at session_too_old
      throw_if (ltb (t + age) now) (rejected session_too_old)) in
    (
      λ h.
          let (first, rest) = >>-eq-ok (check_not_before a.not_before now) _ h in
          let (valid, later) = until.0 rest in
          record { begun = begun.0 first; unexpired = valid; recent = recent.0 later },
      λ h. rw (begun.1 h.begun) (until.1 (h.unexpired, recent.1 h.recent)),
    )

context_lem :
    (given : Option String) (required : List String)
    → ((if is_empty required then false else is_other_context given required) ≡ false)
      ↔ ((required ≡ []) ⊎ IsAccepted given required)
context_lem given [] = (λ h. inl refl, λ h. refl)
context_lem none (r ∷ rs) =
    (λ h. absurd (cc), λ h. elim h [ inl e ↦ absurd (cc) | inr e ↦ absurd e ])
context_lem (some g) (r ∷ rs) =
    (λ h. inr (ground arith), λ h. elim h [ inl e ↦ absurd (cc) | inr e ↦ ground arith ])

IsSufficient-iff :
    (a : WorkforceAssertion) (c : FederationConfig) → (check_person a c ≡ ok tt) ↔ IsSufficient a c
unfolding check_person
IsSufficient-iff a c =
    let context = context_lem a.authn_context c.required_authn_contexts in
    (
      λ h.
          let (first, last) = >>-eq-ok _ _ h in
          record {
            context = context.0 (throw_if-eq-ok _ _ first);
            named = throw_if-eq-ok (is_blank a.subject) _ last;
          },
      λ h. rw (context.1 h.context, h.named) refl,
    )

module _ {S : Type 0} (ledger : AssertionLedger S) where
  consumed :
      (a : WorkforceAssertion) (c : FederationConfig) (kept : S)
      → ((consume_and_check ledger a c kept).result ≡ ok tt)
        ↔ ((ledger.fresh kept a.assertion_id a.not_on_or_after ≡ true) × (check_person a c ≡ ok tt))
  consumed a c kept = elim (Bool-cases (ledger.fresh kept a.assertion_id a.not_on_or_after)) [
    | inl new ↦ rw new (λ h. (refl, h), λ h. h.1)
    | inr old ↦ rw old (λ h. absurd (cc), λ h. absurd (cc))
  ]

  verdict :
      (checked : Result FederationError (Unit {0})) (a : WorkforceAssertion) (c : FederationConfig)
      (kept : S)
      → ((after_checks ledger checked a c kept).result ≡ ok tt)
        ↔ ((checked ≡ ok tt) × ((consume_and_check ledger a c kept).result ≡ ok tt))
  verdict (err thrown) a c kept = (λ h. absurd (cc), λ h. absurd (cc))
  verdict (ok done) a c kept = (λ h. (refl, h), λ h. h.1)

  -- An assertion logs someone in exactly when it answers the request for this tenant, service and
  -- endpoint, is valid now, is new to the ledger, and its subject and strength suffice.
  pub admission_iff :
      (a : WorkforceAssertion) (c : FederationConfig) (b : FederationRequestBinding) (now : ℕ)
      (kept : S)
      → ((verify_workforce_assertion ledger a c b now kept).result ≡ ok tt) ↔ (
          IsBound a c b
          × IsCurrent a c now
          × (ledger.fresh kept a.assertion_id a.not_on_or_after ≡ true)
          × IsSufficient a c)
  unfolding verify_workforce_assertion
  admission_iff a c b now kept =
      let decided = verdict (check_binding a c b >> check_times a c now) a c kept in
      let late = consumed a c kept in
      (
        λ h.
            let (checked, person) = decided.0 h in
            let (bound, current) = >>-eq-ok (check_binding a c b) (check_times a c now) checked in
            let (new, enough) = late.0 person in
            (
              (IsBound-iff a c b).0 bound,
              (IsCurrent-iff a c now).0 current,
              new,
              (IsSufficient-iff a c).0 enough,
            ),
        λ h. decided.1 (
          rw ((IsBound-iff a c b).1 h.0) ((IsCurrent-iff a c now).1 h.1),
          late.1 (h.2, (IsSufficient-iff a c).1 h.3),
        ),
      )
