-- ===== src/Tests/Sealing.antt =====
-- Runs of packages/crypto, and its theorems applied.
use kommunsign.Prelude.{
  ℕ, zero, suc, ◌+◌, ◌%◌, ◌≡◌, ◌≢◌, refl, true, false, List, [], ◌∷◌, ◌↔◌, arith, length, ok, err,
}
use kommunsign.Prelude.Number.{whole}
use kommunsign.Prelude.Text.{codes, trim_codes}
use kommunsign.Prelude.TextOrder.{codes_eq}
use kommunsign.Crypto.Hex.{to_hex, from_hex, parse_pairs}
use kommunsign.Crypto.Hex.Laws.{AreBytes}
use kommunsign.Crypto.Hmac.{
  normalize_signature, constant_time_equal, collect_diff, hmac_sha256_hex, verify_hmac_sha256_hex,
}
use kommunsign.Crypto.Hmac.Spelling.{IsSignature, verification_iff}
use kommunsign.Crypto.Base64.{base64_encode, base64_url_encode, drop_padding}
use kommunsign.Crypto.Tokens.{random_token, is_safe_opaque_token}
use kommunsign.Crypto.CanonicalJson.{
  CanonicalJsonValue, boolean, null, object, undefined, end, field, undefined_at, canonical_json,
}
use kommunsign.Crypto.CanonicalJson.Laws.{in_object, exchanged, canonical_json-Same}

-- So many bytes, from one upward.
unfoldable pub fill : ℕ → ℕ → List ℕ
fill zero b = []
fill (suc n) b = b % 256 ∷ fill n (b + 1)

pub length-fill : (n b : ℕ) → length (fill n b) ≡ n
unfolding fill
length-fill zero b = refl
length-fill (suc n) b = omega (arith, length-fill n (b + 1))

pub fill-AreBytes : (n b : ℕ) → AreBytes (fill n b)
unfolding fill
fill-AreBytes zero b = tt
fill-AreBytes (suc n) b = (omega arith, fill-AreBytes n (b + 1))

steps : Unit {0}
unfolding fill hmac_sha256_hex collect_diff parse_pairs to_hex from_hex normalize_signature
    constant_time_equal verify_hmac_sha256_hex base64_encode base64_url_encode canonical_json
    trim_codes random_token is_safe_opaque_token
steps = tt

hex_run : to_hex (1 ∷ 171 ∷ []) ≡ codes "01ab"
unfolding steps
hex_run = refl

-- Bytes of different lengths, of which the longer one repeats the shorter.
repeated_run : constant_time_equal (7 ∷ []) (7 ∷ 7 ∷ []) ≡ false
unfolding steps
repeated_run = refl

abbrev toy_mac : List ℕ → List ℕ → List ℕ
toy_mac secret payload = fill 2 (length payload + 9)

signed_run : verify_hmac_sha256_hex toy_mac [] (5 ∷ []) (codes " sha256=0A0b ") ≡ true
unfolding steps
signed_run = refl

toy_mac_bytes : AreBytes (toy_mac [] (5 ∷ []))
unfolding steps
toy_mac_bytes = (omega arith, (omega arith, tt))

toy_mac_filled : toy_mac [] (5 ∷ []) ≢ []
unfolding steps
toy_mac_filled = λ e. absurd (cc)

verification_iff_example :
    (verify_hmac_sha256_hex toy_mac [] (5 ∷ []) (codes "0a0b") ≡ true)
    ↔ IsSignature (codes "0a0b") (toy_mac [] (5 ∷ []))
verification_iff_example =
    verification_iff toy_mac [] (5 ∷ []) (codes "0a0b") toy_mac_bytes toy_mac_filled

base64_run : base64_encode (codes "Man") ≡ codes "TWFu"
unfolding steps
base64_run = refl

url_run : base64_url_encode (251 ∷ 255 ∷ []) ≡ codes "-_8"
unfolding steps drop_padding
url_run = refl

token_run : random_token (λ n. fill n 0) (whole 32) ≡ ok (to_hex (fill 32 0))
unfolding steps
token_run = refl

abbrev one_order : CanonicalJsonValue
one_order = object (field (codes "b") null (field (codes "a") (boolean true) end))

abbrev other_order : CanonicalJsonValue
other_order = object (field (codes "a") (boolean true) (field (codes "b") null end))

json_run : canonical_json one_order ≡ ok (codes "{\"a\":true,\"b\":null}")
unfolding steps
json_run = refl

undefined_run :
    canonical_json (object (field (codes "a") undefined end)) ≡ err (undefined_at (codes "a"))
unfolding steps
undefined_run = refl

canonical_json-Same_example : canonical_json one_order ≡ canonical_json other_order
canonical_json-Same_example =
    canonical_json-Same
      (in_object (refl, (refl, tt)) (exchanged (codes "b") (codes "a") null (boolean true) end))
