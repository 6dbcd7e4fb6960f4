-- ===== src/Federation/Admission.antt =====
-- packages/federation/src/index.ts: `verifyWorkforceAssertion`.
pub mod Laws
pub mod Replay
pub mod Pruning
use kommunsign.Prelude.{
  ℕ, ◌+◌, ◌*◌, String, Bool, true, false, not, ◌||◌, Option, none, some, List, ltb, leb, is_empty,
  includes, ◌==◌, ◌!=◌, string_eq, if◌then◌else◌, Result, ok, err, ◌>>=◌, ◌>>◌, throw_if,
}
use kommunsign.Prelude.Number.{IsoDateTime}
use kommunsign.Prelude.Text.{is_blank}
use kommunsign.Federation.Types.{
  FederationConfig, WorkforceAssertion, FederationRequestBinding, AssertionLedger, FederationError,
  rejected, FederationRejectionCode, signature_not_verified, issuer_mismatch, audience_mismatch,
  destination_mismatch, request_mismatch, assertion_replayed, assertion_expired,
  assertion_not_yet_valid, subject_missing, tenant_mismatch, provider_disabled,
  authn_context_too_low, session_too_old, instant_of,
}

abbrev refuse_if : Bool → FederationRejectionCode → Result FederationError (Unit {0})
refuse_if test code = throw_if test (rejected code)

-- The assertion must answer the request that was started.
abbrev pub answers_other : Option String → String → Bool
answers_other none request_id = true
answers_other (some given) request_id = given != request_id

abbrev pub check_not_before : Option IsoDateTime → ℕ → Result FederationError (Unit {0})
check_not_before none current = ok tt
check_not_before (some not_before) current = do
  from ← instant_of not_before assertion_not_yet_valid
  refuse_if (ltb current from) assertion_not_yet_valid

abbrev pub is_other_context : Option String → List String → Bool
is_other_context none required = true
is_other_context (some context) required = not (includes required context)

-- The checks before the ledger is asked.
pub check_binding :
    WorkforceAssertion
    → FederationConfig
    → FederationRequestBinding
    → Result FederationError (Unit {0})
check_binding assertion config binding = do
  refuse_if (not config.enabled) provider_disabled
  refuse_if (not assertion.signature_verified) signature_not_verified
  refuse_if (config.tenant_id != binding.tenant_id) tenant_mismatch
  refuse_if (assertion.issuer != config.issuer) issuer_mismatch
  refuse_if (assertion.audience != config.audience) audience_mismatch
  refuse_if
      (assertion.destination != config.destination || assertion.destination != binding.redirect_uri)
      destination_mismatch
  refuse_if (answers_other assertion.in_response_to binding.request_id) request_mismatch

pub check_times : WorkforceAssertion → FederationConfig → ℕ → Result FederationError (Unit {0})
check_times assertion config current = do
  check_not_before assertion.not_before current
  until ← instant_of assertion.not_on_or_after assertion_expired
  refuse_if (leb until current) assertion_expired
  authenticated_at ← instant_of assertion.authenticated_at session_too_old
  refuse_if (ltb (authenticated_at + config.maximum_authentication_age_seconds * 1000) current)
      session_too_old

-- And the checks behind it.
pub check_person : WorkforceAssertion → FederationConfig → Result FederationError (Unit {0})
check_person assertion config = do
  refuse_if
      (if is_empty config.required_authn_contexts
        then false
        else is_other_context assertion.authn_context config.required_authn_contexts)
      authn_context_too_low
  refuse_if (is_blank assertion.subject) subject_missing

pub record Verified (S : Type 0) : Type 0 where
  pub ledger : S
  pub result : Result FederationError (Unit {0})

module _ {S : Type 0} (ledger : AssertionLedger S) where
  abbrev pub consume_and_check : WorkforceAssertion → FederationConfig → S → Verified S
  consume_and_check assertion config kept =
      if ledger.fresh kept assertion.assertion_id assertion.not_on_or_after
      then record {
        ledger = ledger.keep kept assertion.assertion_id assertion.not_on_or_after;
        result = check_person assertion config;
      }
      else record {
        ledger = ledger.keep kept assertion.assertion_id assertion.not_on_or_after;
        result = err (rejected assertion_replayed);
      }

  abbrev pub after_checks :
      Result FederationError (Unit {0}) → WorkforceAssertion → FederationConfig → S → Verified S
  after_checks (err thrown) assertion config kept = record { ledger = kept; result = err thrown }
  after_checks (ok done) assertion config kept = consume_and_check assertion config kept

  unfoldable pub verify_workforce_assertion :
      WorkforceAssertion → FederationConfig → FederationRequestBinding → ℕ → S → Verified S
  unfolding check_binding check_times check_person
  verify_workforce_assertion assertion config binding now kept =
      after_checks (check_binding assertion config binding >> check_times assertion config now)
        assertion config kept
