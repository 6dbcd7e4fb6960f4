-- ===== src/Crypto/Hmac.antt =====
-- packages/crypto/src/hmac.ts: signatures by a shared secret. A text is handed to `mac` as its bytes
-- in UTF-8.
pub mod Laws
pub mod Spelling
use Prim.Native.Nat.{bit_or, bit_xor}
use kommunsign.Prelude.{
  ℕ, zero, suc, ◌+◌, ◌%◌, max, String, Bool, true, false, Option, none, some, List, [], ◌∷◌,
  nat_beq, drop, length, if◌then◌else◌, Result, ok, err,
}
use kommunsign.Prelude.Text.{codes, trim_codes, starts_with}
use kommunsign.Crypto.Hex.{HexError, to_hex, from_hex}

-- The signature is given by its code points. A character outside the first plane is no hexadecimal
-- digit, so that its units need not be told.
unfoldable pub normalize_signature : List ℕ → List ℕ
normalize_signature value =
    let trimmed = trim_codes value in
    if starts_with (codes "sha256=") trimmed then drop 7 trimmed else trimmed

-- `bytes[i] ?? 0`
abbrev pub byte_at : List ℕ → ℕ → ℕ
byte_at [] i = 0
byte_at (b ∷ bs) zero = b
byte_at (b ∷ bs) (suc i) = byte_at bs i

-- `bytes[i % bytes.length] ?? 0`; of no bytes the index is NaN.
abbrev pub wrapped_at : List ℕ → ℕ → ℕ
wrapped_at bytes i = byte_at bytes (i % length bytes)

-- The loop with `rounds` to go.
unfoldable pub collect_diff : List ℕ → List ℕ → ℕ → ℕ → ℕ → ℕ
collect_diff left right zero i diff = diff
collect_diff left right (suc rounds) i diff =
    collect_diff left right rounds (i + 1)
      (bit_or diff (bit_xor (wrapped_at left i) (wrapped_at right i)))

unfoldable pub constant_time_equal : List ℕ → List ℕ → Bool
constant_time_equal left right =
    nat_beq
      (collect_diff left right (max (length left) (length right)) 0
        (bit_xor (length left) (length right)))
      0

-- `mac` is the HMAC with SHA-256 of Web Crypto.
module _ (mac : List ℕ → List ℕ → List ℕ) where
  unfoldable pub hmac_sha256_hex : List ℕ → List ℕ → List ℕ
  hmac_sha256_hex secret payload = to_hex (mac secret payload)

  abbrev pub compare_both : Result HexError (List ℕ) → Result HexError (List ℕ) → Bool
  compare_both (ok expected) (ok provided) = constant_time_equal expected provided
  compare_both (ok expected) (err thrown) = false
  compare_both (err thrown) provided = false

  unfoldable pub verify_hmac_sha256_hex : List ℕ → List ℕ → List ℕ → Bool
  verify_hmac_sha256_hex secret payload provided_signature =
      compare_both (from_hex (hmac_sha256_hex secret payload))
        (from_hex (normalize_signature provided_signature))
