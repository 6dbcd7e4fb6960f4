-- ===== src/Tests/Broker.antt =====
-- Runs of packages/auth-broker, and its theorems applied.
use kommunsign.Prelude.{
  ℕ, ◌≡◌, refl, Bool, true, not, Option, some, List, [], ◌∷◌, length, find, filter, ◌==◌, ==-self,
  ok, err,
}
use kommunsign.Prelude.Number.{instant}
use kommunsign.Prelude.Text.{codes, trim_codes}
use kommunsign.Prelude.TextOrder.{codes_eq}
use kommunsign.Crypto.Hex.{to_hex, from_hex, parse_pairs}
use kommunsign.Crypto.Hmac.{
  normalize_signature, constant_time_equal, collect_diff, hmac_sha256_hex, verify_hmac_sha256_hex,
}
use kommunsign.AuthBroker.{
  AuthorizationCodeRecord, AuthorizationCodeStore, IssueInput, Issued, before_dot, behind_dot,
  is_code, code_of, signature_of, code_invalid_or_used, check_record, issue_authorization_code,
  exchange_authorization_code,
}
use kommunsign.AuthBroker.Laws.{IsExchanged, exchange_sound}
use kommunsign.AuthBroker.Exchange.{record_of}
use kommunsign.AuthBroker.Database.{authorization_code_store, stored_codes_are_refused}
use kommunsign.Tests.Sealing.{fill}

-- A store that is a list, and takes a code away when it is used.
abbrev has_hash : List ℕ → AuthorizationCodeRecord → Bool
has_hash hash r = r.code_hash == hash

abbrev shelf : AuthorizationCodeStore (List AuthorizationCodeRecord)
shelf = record {
  create = λ kept r. r ∷ kept;
  consumed = λ kept hash now. find (has_hash hash) kept;
  consume = λ kept hash now. filter (λ r. not (has_hash hash r)) kept;
}

shelf_finds :
    (kept : List AuthorizationCodeRecord) (r : AuthorizationCodeRecord) (at : ℕ)
    → shelf.consumed (shelf.create kept r) r.code_hash at ≡ some r
shelf_finds kept r at = rw (==-self r.code_hash) refl

abbrev toy_mac : List ℕ → List ℕ → List ℕ
toy_mac key payload = fill 32 (length payload)

abbrev same_name : List ℕ → Option (List ℕ)
same_name hostname = some hostname

abbrev input : IssueInput
input = record {
  signing_key = [];
  tenant_id = codes "t";
  destination_hostname = codes "h";
  subject_id = codes "s";
  auth_method = codes "m";
}

abbrev made : AuthorizationCodeRecord
made = record_of toy_mac same_name shelf input (codes "h") (to_hex (fill 32 0)) 0 60

abbrev issued : Issued (List AuthorizationCodeRecord)
issued = record {
  store = made ∷ [];
  code = code_of toy_mac same_name shelf (to_hex (fill 32 0)) (
      signature_of toy_mac same_name shelf [] (codes "t") (codes "h") (codes "s")
        (to_hex (fill 32 0)));
  expires_at = instant 60000;
}

steps : Unit {0}
unfolding fill to_hex from_hex parse_pairs normalize_signature trim_codes constant_time_equal
    collect_diff hmac_sha256_hex verify_hmac_sha256_hex before_dot behind_dot is_code check_record
    issue_authorization_code exchange_authorization_code record_of
steps = tt

issue_run :
    issue_authorization_code toy_mac same_name shelf input (to_hex (fill 32 0)) 0 60 [] ≡ ok issued
unfolding steps
issue_run = refl

exchange_run :
    (exchange_authorization_code toy_mac same_name shelf [] issued.code
      (codes "h")
      1000
      (made ∷ [])).result
    ≡ ok made
unfolding steps
exchange_run = refl

-- The code that was exchanged is gone.
second_run :
    (exchange_authorization_code toy_mac same_name shelf [] issued.code
      (codes "h")
      1000
      (exchange_authorization_code toy_mac same_name shelf [] issued.code
        (codes "h")
        1000
        (made ∷ [])).store).result
    ≡ err code_invalid_or_used
unfolding steps
second_run = refl

exchange_sound_example :
    (is_code issued.code ≡ true)
    × IsExchanged toy_mac same_name shelf [] issued.code (codes "h") 1000 (made ∷ []) made
exchange_sound_example =
    exchange_sound toy_mac same_name shelf [] issued.code (codes "h") 1000 (made ∷ []) made
      exchange_run

abbrev written : ℕ → List ℕ
written t = codes "2026-01-01T00:00:00.000Z"

shaped_run : is_code issued.code ≡ true
unfolding steps
shaped_run = refl

-- A code that was just issued, and the store of the database.
stored_codes_are_refused_example :
    (exchange_authorization_code toy_mac same_name
      (authorization_code_store written same_name)
      []
      issued.code
      (codes "h")
      1000
      ((authorization_code_store written same_name).create [] made)).result
    ≡ err code_invalid_or_used
stored_codes_are_refused_example =
    stored_codes_are_refused written same_name toy_mac [] issued.code (codes "h") 1000
      ((authorization_code_store written same_name).create [] made) (λ e. absurd (cc)) shaped_run
