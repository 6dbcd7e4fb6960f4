-- ===== src/Crypto/Hex/Laws.antt =====
-- Reading the digits of bytes gives the bytes.
use kommunsign.Prelude.{
  ℕ, ◌+◌, ◌*◌, ◌/◌, ◌%◌, ◌<◌, ◌≡◌, ◌≢◌, refl, true, false, List, [], ◌∷◌, arith, is_empty, length,
  all, All, ok,
}
use kommunsign.Crypto.Hex.{
  hex_digit, to_string_16, pad_start_2, to_hex, is_hex_letter, digit_value, is_even, parse_pairs,
  from_hex,
}

-- Numbers below 256.
abbrev pub AreBytes : List ℕ → Type 0
AreBytes = All (λ b. b < 256)

-- A byte is written with two digits.
pub byte-digits :
    (b : ℕ) → b < 256 → pad_start_2 (to_string_16 b) ≡ hex_digit (b / 16) ∷ hex_digit (b % 16) ∷ []
byte-digits b h = ground arith

digit_value-hex_digit : (d : ℕ) → d < 16 → digit_value (hex_digit d) ≡ d
digit_value-hex_digit d h = ground arith

hex_digit-letter : (d : ℕ) → d < 16 → is_hex_letter (hex_digit d) ≡ true
hex_digit-letter d h = ground arith

pub to_hex-letters : (bytes : List ℕ) → AreBytes bytes → all is_hex_letter (to_hex bytes) ≡ true
unfolding to_hex
to_hex-letters [] h = refl
to_hex-letters (b ∷ bs) h =
    rw
      (
        byte-digits b h.0,
        hex_digit-letter (b / 16) (omega arith),
        hex_digit-letter (b % 16) (omega arith),
      )
      (to_hex-letters bs h.1)

pub length-to_hex : (bytes : List ℕ) → AreBytes bytes → length (to_hex bytes) ≡ 2 * length bytes
unfolding to_hex
length-to_hex [] h = refl
length-to_hex (b ∷ bs) h = rw (byte-digits b h.0) (omega (arith, length-to_hex bs h.1))

parse_pairs-to_hex : (bytes : List ℕ) → AreBytes bytes → parse_pairs (to_hex bytes) ≡ bytes
unfolding to_hex parse_pairs
parse_pairs-to_hex [] h = refl
parse_pairs-to_hex (b ∷ bs) h =
    let value : b / 16 * 16 + b % 16 ≡ b = omega arith in
    rw
      (
        byte-digits b h.0,
        digit_value-hex_digit (b / 16) (omega arith),
        digit_value-hex_digit (b % 16) (omega arith),
        value,
        parse_pairs-to_hex bs h.1,
      )
      refl

-- The digits of bytes, at least one, are read as the same bytes.
pub from_hex-to_hex :
    (bytes : List ℕ) → AreBytes bytes → bytes ≢ [] → from_hex (to_hex bytes) ≡ ok bytes
unfolding from_hex
from_hex-to_hex [] h some_byte = absurd (some_byte refl)
from_hex-to_hex (b ∷ bs) h some_byte =
    let even : is_even (length (to_hex (b ∷ bs))) ≡ true =
      rw (length-to_hex (b ∷ bs) h) (ground arith) in
    let full : is_empty (to_hex (b ∷ bs)) ≡ false = unfold to_hex in rw (byte-digits b h.0) refl in
    rw (full, to_hex-letters (b ∷ bs) h, even, parse_pairs-to_hex (b ∷ bs) h) refl
