-- ===== src/PersonalNumber/Binding.antt =====
-- When a signer is bound to a personal identity number beforehand, and when not.
use kommunsign.Prelude.{
  ℕ, String, ◌≡◌, inl, inr, true, false, not, ◌||◌, Option, none, some, List, arith, ok, throw_if,
  if◌then◌else◌, is_none, is_some, Bool-cases, >>-eq-ok, >>=-eq-ok, throw_if-eq-ok,
}
use kommunsign.Prelude.Text.{codes, trim, is_blank}
use kommunsign.PersonalNumber.{
  personal_number_invalid, personal_number_required, other_reason, exception_code_eq,
  PersonalNumberException, BindingRequest, BindingDecision, strict_prebound, bankid_discovered,
  trimmed, is_too_long, decide_exception, decide_without_number, decide_with_number,
  decide_identifier_binding, normalise_swedish_personal_number,
}
use kommunsign.PersonalNumber.Dates.{IsPersonalNumber, IsPersonalNumber-sound}

-- Bound beforehand: the number was asked for, and is one.
pub record IsBound (request : BindingRequest) (number : List ℕ) : Type 0 where
  pub asked : request.require_personal_number_match ≡ true
  pub no_exception : is_some request.exception ≡ false
  pub valid : IsPersonalNumber number

-- Found out by BankID: an exception that the tenant and the actor may make, with a reason where its
-- code says nothing.
pub record IsExcepted (request : BindingRequest) (exception : PersonalNumberException)
    : Type 0 where
  pub not_asked : request.require_personal_number_match ≡ false
  pub tenant_allows : request.tenant_allows_exception ≡ true
  pub actor_may : request.actor_has_exception_permission ≡ true
  pub reasoned : exception.code ≡ other_reason → is_none exception.reason ≡ false
  pub short : is_too_long exception.reason ≡ false

unfoldable pub IsDecided : BindingRequest → BindingDecision → Type 0
IsDecided request (strict_prebound number) = IsBound request number
IsDecided request (bankid_discovered exception) = IsExcepted request exception

with_number :
    (request : BindingRequest) (raw : String) {d : BindingDecision}
    → decide_with_number request raw ≡ ok d
    → IsDecided request d
unfolding decide_with_number IsDecided
with_number request raw {d} h =
    let (asked, h1) =
      >>-eq-ok
        (throw_if (not request.require_personal_number_match || is_some request.exception)
          personal_number_invalid)
        _ h in
    let (number, read, same) =
      >>=-eq-ok (normalise_swedish_personal_number (codes (trim raw)) request.reference_date) _
        h1 in
    let is_strict : d ≡ strict_prebound number = ground (arith, same) in
    rw is_strict (record {
      asked = ground (arith, asked);
      no_exception = ground (arith, asked);
      valid = IsPersonalNumber-sound (codes (trim raw)) request.reference_date read;
    })

excepted :
    (request : BindingRequest) (given : Option PersonalNumberException) {d : BindingDecision}
    → request.require_personal_number_match ≡ false
    → decide_exception request given ≡ ok d
    → IsDecided request d
unfolding decide_exception IsDecided
excepted request none r h = absurd (ground (arith, h))
excepted request (some exception) {d} r h =
    let is_found : d
        ≡ bankid_discovered (record { code = exception.code; reason = trimmed exception.reason }) =
      ground (arith, h) in
    rw is_found (record {
      not_asked = r;
      tenant_allows = ground (arith, h);
      actor_may = ground (arith, h);
      reasoned = λ e. ground (arith, h, e);
      short = ground (arith, h);
    })

without_number :
    (request : BindingRequest) {d : BindingDecision}
    → decide_without_number request ≡ ok d
    → IsDecided request d
unfolding decide_without_number
without_number request h =
    let (free, h1) =
      >>-eq-ok (throw_if request.require_personal_number_match personal_number_required) _ h in
    excepted request request.exception
      (throw_if-eq-ok request.require_personal_number_match personal_number_required free) h1

-- A signer is bound beforehand only to a valid personal identity number that was asked for, and is
-- otherwise left to BankID only by an exception that the tenant allows and the actor may make, with
-- a reason where its code gives none.
pub binding_sound :
    (request : BindingRequest) {d : BindingDecision}
    → decide_identifier_binding request ≡ ok d
    → IsDecided request d
unfolding decide_identifier_binding
binding_sound request h = given request request.personal_number h
  where
    given :
        (request : BindingRequest) (number : Option String) {d : BindingDecision}
        → (elim number [
          | none ↦ decide_without_number request
          | some raw ↦
              if is_blank raw then decide_without_number request else decide_with_number request raw
        ])
          ≡ ok d
        → IsDecided request d
    given request none h = without_number request h
    given request (some raw) h = elim (Bool-cases (is_blank raw)) [
      | inl blank ↦ without_number request (rw blank at h)
      | inr filled ↦ with_number request raw (rw filled at h)
    ]
