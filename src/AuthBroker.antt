-- ===== src/AuthBroker.antt =====
-- packages/auth-broker/src/index.ts: the codes that carry a login from the platform to a tenant's
-- hostname. A text is the list of its bytes in UTF-8.
pub mod Laws
pub mod Exchange
pub mod Database
use kommunsign.Prelude.{
  ℕ, ◌+◌, ◌*◌, Bool, true, false, not, ◌&&◌, ◌||◌, Option, none, some, List, [], ◌∷◌, ◌++◌, ltb,
  leb, nat_beq, is_some, if◌then◌else◌, ◌!=◌, Result, ok, err, ◌>>=◌, ◌>>◌, throw_if,
}
use kommunsign.Prelude.Number.{IsoDateTime, instant, to_iso_string, is_at_most}
use kommunsign.Prelude.Text.{is_hex}
use kommunsign.Prelude.TextOrder.{codes_eq}
use kommunsign.Crypto.Hex.{to_hex}
use kommunsign.Crypto.Hmac.{hmac_sha256_hex, verify_hmac_sha256_hex}

pub record AuthorizationCodeRecord : Type 0 where
  pub code_hash : List ℕ
  pub tenant_id : List ℕ
  pub destination_hostname : List ℕ
  pub subject_id : List ℕ
  pub auth_method : List ℕ
  pub expires_at : IsoDateTime
  pub created_at : IsoDateTime
  pub used_at : Option (List ℕ)
  pub revoked_at : Option (List ℕ)

pub data AuthCodeError : Type 0 where
  code_validity_invalid hostname_invalid range_error code_invalid : AuthCodeError
  code_invalid_or_used code_expired code_destination_mismatch : AuthCodeError
  code_signature_invalid : AuthCodeError

-- `consume` takes the record away or marks it; what it answers is up to the store.
pub record AuthorizationCodeStore (S : Type 0) : Type 0 where
  pub create : S → AuthorizationCodeRecord → S
  pub consumed : S → List ℕ → ℕ → Option AuthorizationCodeRecord
  pub consume : S → List ℕ → ℕ → S

pub record IssueInput : Type 0 where
  pub signing_key : List ℕ
  pub tenant_id : List ℕ
  pub destination_hostname : List ℕ
  pub subject_id : List ℕ
  pub auth_method : List ℕ

pub record Issued (S : Type 0) : Type 0 where
  pub store : S
  pub code : List ℕ
  pub expires_at : IsoDateTime

pub record Exchanged (S : Type 0) : Type 0 where
  pub store : S
  pub result : Result AuthCodeError AuthorizationCodeRecord

-- `if (value)`, of an optional text.
abbrev pub is_set : Option (List ℕ) → Bool
is_set none = false
is_set (some []) = false
is_set (some (c ∷ s)) = true

abbrev pub required {ℓ} : {A : Type ℓ} → AuthCodeError → Option A → Result AuthCodeError A
required e none = err e
required e (some a) = ok a

-- `code.split('.')`, of a text with one dot.
unfoldable pub before_dot : List ℕ → List ℕ
before_dot [] = []
before_dot (c ∷ s) = let rest = c ∷ before_dot s in if nat_beq c b'.' then [] else rest

unfoldable pub behind_dot : List ℕ → List ℕ
behind_dot [] = []
behind_dot (c ∷ s) = let rest = behind_dot s in if nat_beq c b'.' then s else rest

-- `/^[0-9a-f]{64}\.[0-9a-f]{64}$/`
unfoldable pub is_code : List ℕ → Bool
unfolding before_dot behind_dot
is_code code = is_hex 64 (before_dot code) && is_hex 64 (behind_dot code)

-- `${tenantId}:${destinationHostname}:${subjectId}:${random}`
abbrev pub signed_text : List ℕ → List ℕ → List ℕ → List ℕ → List ℕ
signed_text tenant_id hostname subject_id random =
    tenant_id ++ b':' ∷ (hostname ++ b':' ∷ (subject_id ++ b':' ∷ random))

-- `Date.parse(expiresAt)` that now has reached; NaN is never reached.
abbrev pub has_expired : IsoDateTime → ℕ → Bool
has_expired = is_at_most

-- `mac` is HMAC with SHA-256, `canonical` the spelling of a hostname, by the URL parser.
module _ {S : Type 0} (mac : List ℕ → List ℕ → List ℕ) (canonical : List ℕ → Option (List ℕ))
    (store : AuthorizationCodeStore S) where
  abbrev pub code_of : List ℕ → List ℕ → List ℕ
  code_of random signature = random ++ b'.' ∷ signature

  abbrev pub signature_of : List ℕ → List ℕ → List ℕ → List ℕ → List ℕ → List ℕ
  signature_of key tenant_id hostname subject_id random =
      hmac_sha256_hex mac key (signed_text tenant_id hostname subject_id random)

  -- `random` is the token that was made, `now` the time in milliseconds.
  unfoldable pub issue_authorization_code :
      IssueInput → List ℕ → ℕ → ℕ → S → Result AuthCodeError (Issued S)
  issue_authorization_code input random now validity_seconds kept = do
    throw_if (ltb validity_seconds 15 || ltb 120 validity_seconds) code_validity_invalid
    hostname ← required hostname_invalid (canonical input.destination_hostname)
    let signature = signature_of input.signing_key input.tenant_id hostname input.subject_id random
    let code = code_of random signature
    expires_at ← required range_error (to_iso_string (now + validity_seconds * 1000))
    created_at ← required range_error (to_iso_string now)
    ok (record {
      store = store.create kept (record {
        code_hash = hmac_sha256_hex mac input.signing_key code;
        tenant_id = input.tenant_id;
        destination_hostname = hostname;
        subject_id = input.subject_id;
        auth_method = input.auth_method;
        expires_at = expires_at;
        created_at = created_at;
        used_at = none;
        revoked_at = none;
      });
      code = code;
      expires_at = expires_at;
    })

  -- The checks on the record that the store gave.
  unfoldable pub check_record :
      List ℕ
      → List ℕ
      → List ℕ
      → ℕ
      → AuthorizationCodeRecord
      → Result AuthCodeError AuthorizationCodeRecord
  check_record key code destination_hostname now found = do
    throw_if (is_set found.revoked_at || is_set found.used_at) code_invalid_or_used
    throw_if (has_expired found.expires_at now) code_expired
    destination ← required hostname_invalid (canonical destination_hostname)
    throw_if (found.destination_hostname != destination) code_destination_mismatch
    throw_if
        (not (
          verify_hmac_sha256_hex mac key
            (signed_text found.tenant_id found.destination_hostname found.subject_id
              (before_dot code))
            (behind_dot code)))
        code_signature_invalid
    ok found

  abbrev pub check_found :
      List ℕ
      → List ℕ
      → List ℕ
      → ℕ
      → Option AuthorizationCodeRecord
      → Result AuthCodeError AuthorizationCodeRecord
  check_found key code destination_hostname now none = err code_invalid_or_used
  check_found key code destination_hostname now (some found) =
      check_record key code destination_hostname now found

  unfoldable pub exchange_authorization_code : List ℕ → List ℕ → List ℕ → ℕ → S → Exchanged S
  unfolding check_record
  exchange_authorization_code key code destination_hostname now kept =
      if is_code code
      then record {
        store = store.consume kept (hmac_sha256_hex mac key code) now;
        result =
            check_found key code destination_hostname now
              (store.consumed kept (hmac_sha256_hex mac key code) now);
      }
      else record { store = kept; result = err code_invalid }
