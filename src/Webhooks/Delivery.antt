-- ===== src/Webhooks/Delivery.antt =====
-- Which deliveries pass.
use kommunsign.Prelude.{
  ℕ, ◌+◌, ◌≤◌, ◌≡◌, ◌≢◌, sym, true, false, not, ◌||◌, List, [], ◌++◌, arith, inl, inr, Bool-cases,
  ok, >>=-eq-ok, ok_injective,
}
use kommunsign.Prelude.Number.{Number, whole, negative, other, is_safe_integer}
use kommunsign.Prelude.Text.{codes}
use kommunsign.Crypto.Hex.{from_hex}
use kommunsign.Crypto.Hex.Laws.{AreBytes}
use kommunsign.Crypto.Hmac.{hmac_sha256_hex, normalize_signature, verify_hmac_sha256_hex}
use kommunsign.Crypto.Hmac.Laws.{decoded_iff, verification-append}
use kommunsign.Crypto.CanonicalJson.{CanonicalJsonValue, canonical_json}
use kommunsign.Webhooks.Signing.{
  SignedWebhook, signed_content, is_out_of_age, sign_webhook, verify_webhook,
}

-- What is in age, of a number that is safe.
abbrev pub InAge : ℕ → ℕ → Number → Type 0
InAge now maximum (whole t) = (now ≤ t + maximum) × (t ≤ now + maximum)
InAge now maximum (negative n) = now + n + 1 ≤ maximum
InAge now maximum other = ⊥

InAge-sound :
    (now maximum : ℕ) (n : Number)
    → (not (is_safe_integer n) || is_out_of_age now maximum n) ≡ false
    → InAge now maximum n
InAge-sound now maximum (whole t) h = (ground arith, ground arith)
InAge-sound now maximum (negative n) h = ground arith
InAge-sound now maximum other h = absurd (cc)

module _ (mac : List ℕ → List ℕ → List ℕ) (read_number : List ℕ → Number) where
  -- A delivery that is signed passes while its timestamp is no further than the maximum age from the
  -- receiver's clock, before it or behind it, where the MAC is of bytes and at least one.
  pub signed_webhook_passes :
      (payload : CanonicalJsonValue) (secret timestamp : List ℕ) (signed : SignedWebhook)
      (t now maximum_age : ℕ)
      → ((text : List ℕ) → AreBytes (mac secret text) × (mac secret text ≢ []))
      → sign_webhook mac read_number payload secret timestamp ≡ ok signed
      → read_number timestamp ≡ whole t
      → is_safe_integer (whole t) ≡ true
      → now ≤ t + maximum_age
      → t ≤ now + maximum_age
      → verify_webhook mac read_number signed secret now maximum_age ≡ true
  unfolding sign_webhook verify_webhook
  signed_webhook_passes payload secret timestamp signed t now maximum_age shaped h read safe late
        early =
      let (body, written, built) = >>=-eq-ok (canonical_json payload) _ h in
      let in_age : is_out_of_age now maximum_age (whole t) ≡ false = ground (arith, late, early) in
      let (bytes, some_byte) = shaped (signed_content timestamp body) in
      let passes : verify_hmac_sha256_hex mac secret (signed_content timestamp body)
            (codes "sha256=" ++ hmac_sha256_hex mac secret (signed_content timestamp body))
          ≡ true =
        unfold hmac_sha256_hex in
        verification-append mac secret (signed_content timestamp body) bytes some_byte in
      rw (sym (ok_injective built), read, safe, in_age) passes

  -- A delivery passes only if its timestamp is within the maximum age of the receiver's clock, and
  -- its signature spells the MAC of the timestamp and the body, of bytes and at least one.
  pub verify_webhook_sound :
      (signed : SignedWebhook) (secret : List ℕ) (now maximum_age : ℕ)
      → AreBytes (mac secret (signed_content signed.timestamp signed.body))
      → mac secret (signed_content signed.timestamp signed.body) ≢ []
      → verify_webhook mac read_number signed secret now maximum_age ≡ true
      → InAge now maximum_age (read_number signed.timestamp)
        × (from_hex (normalize_signature signed.signature)
            ≡ ok (mac secret (signed_content signed.timestamp signed.body)))
  unfolding verify_webhook
  verify_webhook_sound signed secret now maximum_age bytes some_byte h =
      elim (Bool-cases (
        not (is_safe_integer (read_number signed.timestamp))
        || is_out_of_age now maximum_age (read_number signed.timestamp))) [
          | inl refused ↦ absurd (let e : false ≡ true = rw refused at h in cc)
          | inr let_through ↦
              let e : verify_hmac_sha256_hex mac secret
                    (signed_content signed.timestamp signed.body) signed.signature
                  ≡ true =
                rw let_through at h in
              (
                InAge-sound now maximum_age (read_number signed.timestamp) let_through,
                (decoded_iff mac secret (signed_content signed.timestamp signed.body)
                      signed.signature bytes some_byte).0
                    e,
              )
        ]
