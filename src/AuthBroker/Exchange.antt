-- ===== src/AuthBroker/Exchange.antt =====
-- An issued code is exchanged for the record that was made with it, by a store that hands it out
-- unmarked.
use kommunsign.Prelude.{
  ℕ, ◌+◌, ◌*◌, ◌/◌, ◌%◌, ◌<◌, ◌≡◌, ◌≢◌, refl, sym, ap, subst, true, false, ◌||◌, Option, none, some,
  List, [], ◌∷◌, ◌++◌, arith, inl, inr, Bool-cases, &&-true_iff, ltb, leb, nat_beq, length, all,
  ==-self, ok, throw_if, >>=-eq-ok, >>-eq-ok, ok_injective,
}
use kommunsign.Prelude.Number.{IsoDateTime, instant, to_iso_string, max_date}
use kommunsign.Prelude.Text.{is_hex, is_hex_digit}
use kommunsign.Prelude.TextOrder.{codes_eq}
use kommunsign.Crypto.Hex.{to_hex, hex_digit, is_hex_letter}
use kommunsign.Crypto.Hex.Laws.{AreBytes, byte-digits, to_hex-letters, length-to_hex}
use kommunsign.Crypto.Hmac.{hmac_sha256_hex, verify_hmac_sha256_hex}
use kommunsign.Crypto.Hmac.Laws.{verification-own}
use kommunsign.AuthBroker.{
  AuthorizationCodeRecord, code_validity_invalid, hostname_invalid, range_error,
  AuthorizationCodeStore, IssueInput, Issued, required, before_dot, behind_dot, is_code,
  signed_text, code_of, signature_of, issue_authorization_code, check_record,
  exchange_authorization_code,
}
use kommunsign.AuthBroker.Laws.{required-ok}

no_dot : (c : ℕ) → is_hex_letter c ≡ true → nat_beq c b'.' ≡ false
no_dot c h = ground arith

before_dot-append : (s t : List ℕ) → all is_hex_letter s ≡ true → before_dot (s ++ b'.' ∷ t) ≡ s
unfolding before_dot
before_dot-append [] t h = refl
before_dot-append (c ∷ s) t h =
    let (letter, later) = (&&-true_iff (is_hex_letter c) (all is_hex_letter s)).0 h in
    rw (no_dot c letter, before_dot-append s t later) refl

behind_dot-append : (s t : List ℕ) → all is_hex_letter s ≡ true → behind_dot (s ++ b'.' ∷ t) ≡ t
unfolding behind_dot
behind_dot-append [] t h = refl
behind_dot-append (c ∷ s) t h =
    let (letter, later) = (&&-true_iff (is_hex_letter c) (all is_hex_letter s)).0 h in
    rw (no_dot c letter, behind_dot-append s t later) refl

hex_digit-lower : (d : ℕ) → d < 16 → is_hex_digit (hex_digit d) ≡ true
hex_digit-lower d h = ground arith

to_hex-lower :
    (bytes : List ℕ) → AreBytes bytes → is_hex (length (to_hex bytes)) (to_hex bytes) ≡ true
unfolding to_hex
to_hex-lower [] h = refl
to_hex-lower (b ∷ bs) h =
    rw
      (
        byte-digits b h.0,
        hex_digit-lower (b / 16) (omega (arith, h.0)),
        hex_digit-lower (b % 16) (omega arith),
      )
      (to_hex-lower bs h.1)

-- The digits of 32 bytes.
digits_of_32 :
    (bytes : List ℕ) → AreBytes bytes → length bytes ≡ 32 → is_hex 64 (to_hex bytes) ≡ true
digits_of_32 bytes h long =
    let e : length (to_hex bytes) ≡ 64 = omega (arith, length-to_hex bytes h, long) in
    subst (λ n. is_hex n (to_hex bytes) ≡ true) e (to_hex-lower bytes h)

some_of_32 : (bytes : List ℕ) → length bytes ≡ 32 → bytes ≢ []
some_of_32 [] long = absurd (omega (arith, long))
some_of_32 (b ∷ bs) long = λ e. absurd (cc)

to_iso_string-at : (t : ℕ) (at : IsoDateTime) → to_iso_string t ≡ some at → instant t ≡ at
to_iso_string-at t at h = elim (Bool-cases (leb t max_date)) [
  | inl within ↦ let e : some (instant t) ≡ some at = rw within at h in cc
  | inr behind ↦ let e : ◌≡◌ {A = Option IsoDateTime} none (some at) = rw behind at h in absurd (cc)
]

module _ {S : Type 0} (mac : List ℕ → List ℕ → List ℕ) (canonical : List ℕ → Option (List ℕ))
    (store : AuthorizationCodeStore S) where
  -- The record that is made with a code.
  unfoldable pub record_of : IssueInput → List ℕ → List ℕ → ℕ → ℕ → AuthorizationCodeRecord
  record_of input hostname random now validity_seconds = record {
    code_hash = hmac_sha256_hex mac input.signing_key (
        code_of mac canonical store random (
          signature_of mac canonical store input.signing_key input.tenant_id hostname
            input.subject_id random));
    tenant_id = input.tenant_id;
    destination_hostname = hostname;
    subject_id = input.subject_id;
    auth_method = input.auth_method;
    expires_at = instant (now + validity_seconds * 1000);
    created_at = instant now;
    used_at = none;
    revoked_at = none;
  }

  -- What the issuing has done when it succeeds.
  record IsIssued (input : IssueInput) (random : List ℕ) (now validity_seconds : ℕ) (kept : S)
      (out : Issued S) (hostname : List ℕ) : Type 0 where
    pub named : canonical input.destination_hostname ≡ some hostname
    pub stored :
        store.create kept (record_of input hostname random now validity_seconds) ≡ out.store
    pub made :
        code_of mac canonical store random (
          signature_of mac canonical store input.signing_key input.tenant_id hostname
            input.subject_id random)
        ≡ out.code

  issued :
      (input : IssueInput) (random : List ℕ) (now validity_seconds : ℕ) (kept : S) (out : Issued S)
      → issue_authorization_code mac canonical store input random now validity_seconds kept ≡ ok out
      → (hostname : List ℕ) × IsIssued input random now validity_seconds kept out hostname
  unfolding issue_authorization_code record_of
  issued input random now validity_seconds kept out h =
      let (timely, h1) =
        >>-eq-ok
          (throw_if (ltb validity_seconds 15 || ltb 120 validity_seconds) code_validity_invalid) _
          h in
      let (hostname, named, h2) =
        >>=-eq-ok (required hostname_invalid (canonical input.destination_hostname)) _ h1 in
      let (ends, end_read, h3) =
        >>=-eq-ok (required range_error (to_iso_string (now + validity_seconds * 1000))) _ h2 in
      let (starts, start_read, built) = >>=-eq-ok (required range_error (to_iso_string now)) _ h3 in
      let end_at =
        to_iso_string-at (now + validity_seconds * 1000) ends
          (required-ok range_error (to_iso_string (now + validity_seconds * 1000)) ends end_read) in
      let start_at =
        to_iso_string-at now starts
          (required-ok range_error (to_iso_string now) starts start_read) in
      (
        hostname,
        record {
          named =
              required-ok hostname_invalid (canonical input.destination_hostname) hostname named;
          stored = rw (end_at, start_at) (ap (λ (o : Issued S). o.store) (ok_injective built));
          made = ap (λ (o : Issued S). o.code) (ok_injective built);
        },
      )

  module _
      (mac_of_32 : (key payload : List ℕ)
        → AreBytes (mac key payload) × (length (mac key payload) ≡ 32)) where
    -- The record passes its checks before it expires.
    record_passes :
        (input : IssueInput) (hostname bytes : List ℕ) (now later validity_seconds : ℕ)
        → AreBytes bytes
        → canonical input.destination_hostname ≡ some hostname
        → later < now + validity_seconds * 1000
        → let made = record_of input hostname (to_hex bytes) now validity_seconds in
          check_record mac canonical store input.signing_key
            (code_of mac canonical store (to_hex bytes) (
              signature_of mac canonical store input.signing_key input.tenant_id hostname
                input.subject_id
                (to_hex bytes)))
            input.destination_hostname
            later
            made
          ≡ ok made
    unfolding check_record record_of
    record_passes input hostname bytes now later validity_seconds shaped named early =
        let current : leb (now + validity_seconds * 1000) later ≡ false = ground arith in
        let payload = signed_text input.tenant_id hostname input.subject_id (to_hex bytes) in
        let own : verify_hmac_sha256_hex mac input.signing_key payload
              (hmac_sha256_hex mac input.signing_key payload)
            ≡ true =
          unfold hmac_sha256_hex in
          verification-own mac input.signing_key payload (mac_of_32 input.signing_key payload).0
            (some_of_32 (mac input.signing_key payload) (mac_of_32 input.signing_key payload).1) in
        rw
          (
            current,
            named,
            ==-self hostname,
            before_dot-append (to_hex bytes) (hmac_sha256_hex mac input.signing_key payload)
                (to_hex-letters bytes shaped),
            behind_dot-append (to_hex bytes) (hmac_sha256_hex mac input.signing_key payload)
                (to_hex-letters bytes shaped),
            own,
          )
          refl

    made_code :
        (bytes key payload : List ℕ)
        → AreBytes bytes
        → length bytes ≡ 32
        → is_code (code_of mac canonical store (to_hex bytes) (hmac_sha256_hex mac key payload))
          ≡ true
    unfolding is_code hmac_sha256_hex
    made_code bytes key payload shaped long =
        let (signed, signed_long) = mac_of_32 key payload in
        rw
          (
            before_dot-append (to_hex bytes) (to_hex (mac key payload))
                (to_hex-letters bytes shaped),
            behind_dot-append (to_hex bytes) (to_hex (mac key payload))
                (to_hex-letters bytes shaped),
            digits_of_32 bytes shaped long,
            digits_of_32 (mac key payload) signed signed_long,
          )
          refl

    -- Of a store that hands out the record as it was given, without a time of use, and an HMAC and a
    -- random source of 32 bytes: a code that is issued is exchanged, before it expires and at the
    -- hostname that it was issued for, for a record of its tenant, its subject and its method.
    pub issued_code_is_exchanged :
        ((kept : S) (r : AuthorizationCodeRecord) (at : ℕ)
          → store.consumed (store.create kept r) r.code_hash at ≡ some r)
        → (input : IssueInput) (bytes : List ℕ) (now later validity_seconds : ℕ) (kept : S)
          (out : Issued S)
        → AreBytes bytes
        → length bytes ≡ 32
        → issue_authorization_code mac canonical store input
            (to_hex bytes)
            now
            validity_seconds
            kept
          ≡ ok out
        → later < now + validity_seconds * 1000
        → (found : AuthorizationCodeRecord) × ((exchange_authorization_code mac canonical store
              input.signing_key out.code input.destination_hostname later out.store).result
            ≡ ok found)
          × (found.tenant_id ≡ input.tenant_id)
          × (found.subject_id ≡ input.subject_id)
          × (found.auth_method ≡ input.auth_method)
    unfolding exchange_authorization_code record_of
    issued_code_is_exchanged finds input bytes now later validity_seconds kept out shaped long h
          early =
        let (hostname, done) = issued input (to_hex bytes) now validity_seconds kept out h in
        let made = record_of input hostname (to_hex bytes) now validity_seconds in
        (
          made,
          rw
              (
                sym done.stored,
                sym done.made,
                made_code bytes input.signing_key
                    (signed_text input.tenant_id hostname input.subject_id (to_hex bytes)) shaped
                    long,
                finds kept made later,
              )
              (record_passes input hostname bytes now later validity_seconds shaped done.named
                early),
          refl,
          refl,
          refl,
        )
