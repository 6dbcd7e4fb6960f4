-- ===== src/Crypto/Tokens.antt =====
-- packages/crypto/src/tokens.ts.
pub mod Laws
use kommunsign.Prelude.{
  ℕ, ◌≤◌, Bool, true, false, not, ◌&&◌, List, ltb, leb, all, length, if◌then◌else◌, Result, ok, err,
}
use kommunsign.Prelude.Number.{Number, whole, negative, other}
use kommunsign.Crypto.Hex.{is_hex_letter, to_hex}

pub data TokenError : Type 0 where
  range_error : TokenError

-- `random` gives as many random bytes as it is asked for.
module _ (random : ℕ → List ℕ) where
  unfoldable pub random_token : Number → Result TokenError (List ℕ)
  random_token (whole byte_length) =
      if ltb byte_length 32 then err range_error else ok (to_hex (random byte_length))
  random_token (negative n) = err range_error
  random_token other = err range_error

-- `/^[0-9a-f]{64,}$/i`
unfoldable pub is_safe_opaque_token : List ℕ → Bool
is_safe_opaque_token value = leb 64 (length value) && all is_hex_letter value
