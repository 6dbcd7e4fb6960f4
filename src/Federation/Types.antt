-- ===== src/Federation/Types.antt =====
-- packages/federation/src/index.ts: its data, and the ledger in memory.
use kommunsign.Prelude.{
  ℕ, String, Bool, true, false, Option, List, ◌∷◌, if◌then◌else◌, includes, string_eq, Result, ok,
  err,
}
use kommunsign.Prelude.Number.{IsoDateTime, unparsable, instant}
use kommunsign.Prelude.Object.{Property}

pub data FederationProtocol : Type 0 where
  saml2 oidc : FederationProtocol

pub data FederationRejectionCode : Type 0 where
  signature_not_verified issuer_mismatch audience_mismatch : FederationRejectionCode
  destination_mismatch request_mismatch assertion_replayed : FederationRejectionCode
  assertion_expired assertion_not_yet_valid subject_missing : FederationRejectionCode
  tenant_mismatch provider_disabled authn_context_too_low : FederationRejectionCode
  session_too_old no_role_mapped role_not_assignable : FederationRejectionCode

-- The error of the module, or the TypeError of a loop over what is no array.
pub data FederationError : Type 0 where
  rejected : FederationRejectionCode → FederationError
  type_error : FederationError

pub record FederationConfig : Type 0 where
  pub tenant_id : String
  pub protocol : FederationProtocol
  pub enabled : Bool
  pub issuer : String
  pub audience : String
  pub destination : String
  pub signing_certificate_secret_reference : String
  pub required_authn_contexts : List String
  pub maximum_authentication_age_seconds : ℕ
  pub subject_attribute : String
  pub groups_attribute : String
  pub group_to_role : List (Property String)
  pub assignable_roles : List String

pub record WorkforceAssertion : Type 0 where
  pub protocol : FederationProtocol
  pub signature_verified : Bool
  pub issuer : String
  pub audience : String
  pub destination : String
  pub assertion_id : String
  pub in_response_to : Option String
  pub not_before : Option IsoDateTime
  pub not_on_or_after : IsoDateTime
  pub authenticated_at : IsoDateTime
  pub authn_context : Option String
  pub subject : String
  pub attributes : List (Property (List String))

pub record FederationRequestBinding : Type 0 where
  pub request_id : String
  pub tenant_id : String
  pub redirect_uri : String

-- `consume` answers whether the assertion is new, and keeps it.
pub record AssertionLedger (S : Type 0) : Type 0 where
  pub fresh : S → String → IsoDateTime → Bool
  pub keep : S → String → IsoDateTime → S

-- The ledger in memory: the identifiers it has seen.
abbrev pub in_memory_ledger : AssertionLedger (List String)
in_memory_ledger = record {
  fresh = λ seen assertion_id until. if includes seen assertion_id then false else true;
  keep =
      λ seen assertion_id until. if includes seen assertion_id then seen else assertion_id ∷ seen;
}

-- `instant(value, code)`
abbrev pub instant_of : IsoDateTime → FederationRejectionCode → Result FederationError ℕ
instant_of unparsable code = err (rejected code)
instant_of (instant t) code = ok t
