-- ===== src/AuthBroker/Laws.antt =====
-- What an exchanged code shows.
use kommunsign.Prelude.{
  ℕ, ◌≡◌, refl, sym, ap, ◌∙◌, subst, Bool, true, false, not, ◌||◌, Option, none, some, List, arith,
  inl, inr, Bool-cases, ◌!=◌, ==_iff, Result, ok, err, throw_if, >>=-eq-ok, >>-eq-ok,
  throw_if-eq-ok, ok_injective,
}
use kommunsign.Prelude.TextOrder.{codes_eq}
use kommunsign.Crypto.Hmac.{hmac_sha256_hex, verify_hmac_sha256_hex}
use kommunsign.AuthBroker.{
  AuthorizationCodeRecord, AuthCodeError, hostname_invalid, code_invalid, code_invalid_or_used,
  code_expired, code_destination_mismatch, code_signature_invalid, AuthorizationCodeStore, is_set,
  required, before_dot, behind_dot, is_code, signed_text, has_expired, check_record, check_found,
  exchange_authorization_code,
}

pub required-ok :
    {A : Type 0} (e : AuthCodeError) (o : Option A) (a : A) → required e o ≡ ok a → o ≡ some a
required-ok e none a h = absurd (cc)
required-ok e (some b) a h = ap some (ok_injective h)

neither : (a b : Bool) → (a || b) ≡ false → (a ≡ false) × (b ≡ false)
neither a b h = ground arith

module _ {S : Type 0} (mac : List ℕ → List ℕ → List ℕ) (canonical : List ℕ → Option (List ℕ))
    (store : AuthorizationCodeStore S) where
  -- A code that is exchanged: the store knew it, and nobody used or revoked it, it has not expired,
  -- it is for this hostname, and its signature binds tenant, hostname, subject and random part.
  pub record IsExchanged (key code destination_hostname : List ℕ) (now : ℕ) (kept : S)
      (found : AuthorizationCodeRecord) : Type 0 where
    pub known : store.consumed kept (hmac_sha256_hex mac key code) now ≡ some found
    pub unused : is_set found.used_at ≡ false
    pub unrevoked : is_set found.revoked_at ≡ false
    pub current : has_expired found.expires_at now ≡ false
    pub here : canonical destination_hostname ≡ some found.destination_hostname
    pub signed :
        verify_hmac_sha256_hex mac key
          (signed_text found.tenant_id found.destination_hostname found.subject_id
            (before_dot code))
          (behind_dot code)
        ≡ true

  IsExchanged-record :
      (key code destination_hostname : List ℕ) (now : ℕ) (kept : S)
      (found out : AuthorizationCodeRecord)
      → store.consumed kept (hmac_sha256_hex mac key code) now ≡ some found
      → check_record mac canonical store key code destination_hostname now found ≡ ok out
      → IsExchanged key code destination_hostname now kept out
  unfolding check_record
  IsExchanged-record key code destination_hostname now kept found out known h =
      let (open_code, h1) =
        >>-eq-ok (throw_if (is_set found.revoked_at || is_set found.used_at) code_invalid_or_used) _
          h in
      let (current, h2) =
        >>-eq-ok (throw_if (has_expired found.expires_at now) code_expired) _ h1 in
      let (destination, named, h3) =
        >>=-eq-ok (required hostname_invalid (canonical destination_hostname)) _ h2 in
      let (here, h4) =
        >>-eq-ok (throw_if (found.destination_hostname != destination) code_destination_mismatch) _
          h3 in
      let (signed, built) =
        >>-eq-ok
          (throw_if
            (not (
              verify_hmac_sha256_hex mac key
                (signed_text found.tenant_id found.destination_hostname found.subject_id
                  (before_dot code))
                (behind_dot code)))
            code_signature_invalid)
          _ h4 in
      let (unrevoked, unused) =
        neither (is_set found.revoked_at) (is_set found.used_at)
          (throw_if-eq-ok (is_set found.revoked_at || is_set found.used_at) _ open_code) in
      let same : found.destination_hostname ≡ destination =
        (==_iff found.destination_hostname destination).0
          (ground (arith, throw_if-eq-ok (found.destination_hostname != destination) _ here)) in
      subst (IsExchanged key code destination_hostname now kept) (ok_injective built) (record {
        known = known;
        unused = unused;
        unrevoked = unrevoked;
        current = throw_if-eq-ok (has_expired found.expires_at now) _ current;
        here =
            required-ok hostname_invalid (canonical destination_hostname) destination named
            ∙ ap some (sym same);
        signed = ground (
          arith,
          throw_if-eq-ok
              (not (
                verify_hmac_sha256_hex mac key
                  (signed_text found.tenant_id found.destination_hostname found.subject_id
                    (before_dot code))
                  (behind_dot code)))
              _ signed,
        );
      })

  IsExchanged-found :
      (key code destination_hostname : List ℕ) (now : ℕ) (kept : S)
      (found : Option AuthorizationCodeRecord) (out : AuthorizationCodeRecord)
      → store.consumed kept (hmac_sha256_hex mac key code) now ≡ found
      → check_found mac canonical store key code destination_hostname now found ≡ ok out
      → IsExchanged key code destination_hostname now kept out
  IsExchanged-found key code destination_hostname now kept none out known h = absurd (cc)
  IsExchanged-found key code destination_hostname now kept (some found) out known h =
      IsExchanged-record key code destination_hostname now kept found out known h

  -- A login is taken over only by a code of the right shape that the store knew as unused and
  -- unrevoked, before it expires, at the hostname that it was issued for, and with a signature that
  -- binds the tenant, the hostname and the subject of the record.
  pub exchange_sound :
      (key code destination_hostname : List ℕ) (now : ℕ) (kept : S) (out : AuthorizationCodeRecord)
      → (exchange_authorization_code mac canonical store key code destination_hostname now
          kept).result
        ≡ ok out
      → (is_code code ≡ true) × IsExchanged key code destination_hostname now kept out
  unfolding exchange_authorization_code
  exchange_sound key code destination_hostname now kept out h = elim (Bool-cases (is_code code)) [
    | inl shaped ↦ (
      shaped,
      IsExchanged-found key code destination_hostname now kept
          (store.consumed kept (hmac_sha256_hex mac key code) now) out refl (rw shaped at h),
    )
    | inr other ↦ absurd (
        let e : ◌≡◌ {A = Result AuthCodeError AuthorizationCodeRecord} (err code_invalid) (ok out) =
          rw other at h in
        cc)
  ]
