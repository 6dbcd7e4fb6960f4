-- ===== src/Crypto/Hex.antt =====
-- packages/crypto/src/hash.ts and hmac.ts: bytes as hexadecimal digits, and back. A text is the list of
-- its code units.
pub mod Laws
use kommunsign.Prelude.{
  ℕ, ◌+◌, ◌-◌, ◌*◌, ◌/◌, ◌%◌, Bool, true, false, ◌&&◌, ◌||◌, List, [], ◌∷◌, ◌++◌, ltb, leb, nat_beq,
  is_empty, length, all, if◌then◌else◌, not, Result, ok, err,
}

-- A digit of `toString(16)`.
abbrev pub hex_digit : ℕ → ℕ
hex_digit d = if ltb d 10 then 48 + d else 87 + d

-- `byte.toString(16)`, of a byte.
abbrev pub to_string_16 : ℕ → List ℕ
to_string_16 byte =
    if ltb byte 16 then hex_digit byte ∷ [] else hex_digit (byte / 16) ∷ hex_digit (byte % 16) ∷ []

-- `.padStart(2, '0')`, of a text with a character at least.
abbrev pub pad_start_2 : List ℕ → List ℕ
pad_start_2 (c ∷ []) = 48 ∷ c ∷ []
pad_start_2 s = s

unfoldable pub to_hex : List ℕ → List ℕ
to_hex [] = []
to_hex (byte ∷ bytes) = pad_start_2 (to_string_16 byte) ++ to_hex bytes

-- `[0-9a-fA-F]`
abbrev pub is_hex_letter : ℕ → Bool
is_hex_letter c = leb 48 c && leb c 57 || leb 97 c && leb c 102 || leb 65 c && leb c 70

-- `Number.parseInt(…, 16)`, of such a letter.
abbrev pub digit_value : ℕ → ℕ
digit_value c = if leb c 57 then c - 48 else if leb 97 c then c - 87 else c - 55

abbrev pub is_even : ℕ → Bool
is_even n = nat_beq (n % 2) 0

-- The loop over pairs of letters.
unfoldable pub parse_pairs : List ℕ → List ℕ
parse_pairs [] = []
parse_pairs (a ∷ []) = []
parse_pairs (a ∷ b ∷ s) = (digit_value a * 16 + digit_value b) ∷ parse_pairs s

pub data HexError : Type 0 where
  invalid_hex : HexError

unfoldable pub from_hex : List ℕ → Result HexError (List ℕ)
from_hex hex =
    if is_empty hex || not (all is_hex_letter hex) || not (is_even (length hex))
    then err invalid_hex
    else ok (parse_pairs hex)
