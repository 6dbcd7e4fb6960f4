-- ===== src/Webhooks/Signing.antt =====
-- packages/webhooks/src/index.ts: a delivery is signed, and its receiver checks it. A text is the list
-- of its code units; it is handed to `mac` as its bytes in UTF-8.
use kommunsign.Prelude.{
  ℕ, ◌+◌, ◌-◌, Bool, false, not, ◌||◌, List, ◌∷◌, ◌++◌, ltb, if◌then◌else◌, Result, ok, ◌>>=◌,
}
use kommunsign.Prelude.Number.{Number, whole, negative, other, is_safe_integer}
use kommunsign.Prelude.Text.{codes}
use kommunsign.Crypto.Hmac.{hmac_sha256_hex, verify_hmac_sha256_hex}
use kommunsign.Crypto.CanonicalJson.{CanonicalJsonValue, JsonError, canonical_json}

pub record SignedWebhook : Type 0 where
  pub body : List ℕ
  pub timestamp : List ℕ
  pub signature : List ℕ

-- `${timestamp}.${body}`
abbrev pub signed_content : List ℕ → List ℕ → List ℕ
signed_content timestamp body = timestamp ++ b'.' ∷ body

-- `Math.abs(now - timestamp) > maximum`; of a number that is not safe it is not asked.
abbrev pub is_out_of_age : ℕ → ℕ → Number → Bool
is_out_of_age now maximum (whole t) = ltb maximum (now - t + (t - now))
is_out_of_age now maximum (negative n) = ltb maximum (now + n + 1)
is_out_of_age now maximum other = false

-- `read_number` is what `Number` makes of a text.
module _ (mac : List ℕ → List ℕ → List ℕ) (read_number : List ℕ → Number) where
  unfoldable pub sign_webhook :
      CanonicalJsonValue → List ℕ → List ℕ → Result JsonError SignedWebhook
  sign_webhook payload secret timestamp = do
    body ← canonical_json payload
    ok (record {
      body = body;
      timestamp = timestamp;
      signature = codes "sha256=" ++ hmac_sha256_hex mac secret (signed_content timestamp body);
    })

  unfoldable pub verify_webhook : SignedWebhook → List ℕ → ℕ → ℕ → Bool
  verify_webhook signed secret now maximum_age =
      let timestamp = read_number signed.timestamp in
      if not (is_safe_integer timestamp) || is_out_of_age now maximum_age timestamp
      then false
      else verify_hmac_sha256_hex mac secret (signed_content signed.timestamp signed.body)
          signed.signature
