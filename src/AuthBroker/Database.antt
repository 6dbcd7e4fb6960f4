-- ===== src/AuthBroker/Database.antt =====
-- apps/api/src/production-adapters/postgres/application-session-repository.ts: the store of codes in
-- the table control.auth_authorization_codes, and what an exchange makes of its answers.
use kommunsign.Prelude.{
  ℕ, ◌≡◌, ◌≢◌, refl, Bool, true, ◌&&◌, ◌||◌, Option, none, some, is_none, List, [], ◌∷◌, arith, map,
  any, find, if◌then◌else◌, ◌==◌, err,
}
use kommunsign.Prelude.Number.{is_after}
use kommunsign.Prelude.TextOrder.{codes_eq}
use kommunsign.AuthBroker.{
  AuthorizationCodeRecord, AuthorizationCodeStore, code_invalid_or_used, is_set, is_code,
  check_record, check_found, exchange_authorization_code,
}

-- `where code_hash = $1 and used_at is null and revoked_at is null and expires_at > $2`
abbrev pub is_consumable : List ℕ → ℕ → AuthorizationCodeRecord → Bool
is_consumable hash now row =
    row.code_hash == hash
    && is_none row.used_at
    && (is_none row.revoked_at && is_after row.expires_at now)

-- `set used_at = $2`
abbrev pub with_use : List ℕ → AuthorizationCodeRecord → AuthorizationCodeRecord
with_use used_at row = record row { used_at = some used_at }

-- `returning ...` gives the row as the update leaves it.
abbrev pub returned : List ℕ → Option AuthorizationCodeRecord → Option AuthorizationCodeRecord
returned used_at none = none
returned used_at (some row) = some (with_use used_at row)

-- `iso` writes the time of a Date, `canonical` is the spelling of a hostname, by the URL parser. An
-- insertion that throws, for its hostname or for a code that has a row, leaves the rows as they are.
module _ (iso : ℕ → List ℕ) (canonical : List ℕ → Option (List ℕ)) where
  abbrev pub insert_code :
      List AuthorizationCodeRecord
      → AuthorizationCodeRecord
      → Option (List ℕ)
      → List AuthorizationCodeRecord
  insert_code rows r none = rows
  insert_code rows r (some hostname) =
      if any (λ (row : AuthorizationCodeRecord). row.code_hash == r.code_hash) rows
      then rows
      else record r { destination_hostname = hostname } ∷ rows

  abbrev pub authorization_code_store : AuthorizationCodeStore (List AuthorizationCodeRecord)
  authorization_code_store = record {
    create = λ rows r. insert_code rows r (canonical r.destination_hostname);
    consumed = λ rows hash now. returned (iso now) (find (is_consumable hash now) rows);
    consume = λ rows hash now.
        map (λ row. if is_consumable hash now row then with_use (iso now) row else row) rows;
  }

  used_is_refused :
      (mac : List ℕ → List ℕ → List ℕ) (key code destination : List ℕ) (now : ℕ)
      (found : Option AuthorizationCodeRecord)
      → iso now ≢ []
      → check_found mac canonical authorization_code_store key code destination now
          (returned (iso now) found)
        ≡ err code_invalid_or_used
  unfolding check_record
  used_is_refused mac key code destination now none written = refl
  used_is_refused mac key code destination now (some row) written =
      let used : is_set (some (iso now)) ≡ true = filled (iso now) written in
      let either : (is_set row.revoked_at || is_set (some (iso now))) ≡ true =
        ground (arith, used) in
      rw either refl
    where
      filled : (s : List ℕ) → s ≢ [] → is_set (some s) ≡ true
      filled [] h = absurd (h refl)
      filled (c ∷ s) h = refl

  -- With the store of the database every code of the right shape is refused as used, whatever the
  -- rows are, where a date is not written as an empty text: the update sets the time of use, and
  -- answers with the row that it has set it in.
  pub stored_codes_are_refused :
      (mac : List ℕ → List ℕ → List ℕ) (key code destination : List ℕ) (now : ℕ)
      (rows : List AuthorizationCodeRecord)
      → iso now ≢ []
      → is_code code ≡ true
      → (exchange_authorization_code mac canonical authorization_code_store key code destination now
          rows).result
        ≡ err code_invalid_or_used
  unfolding exchange_authorization_code
  stored_codes_are_refused mac key code destination now rows written shaped =
      rw shaped (used_is_refused mac key code destination now _ written)
