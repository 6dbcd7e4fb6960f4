-- ===== src/Crypto/Base64.antt =====
-- packages/crypto/src/base64.ts. Shifts and masks of three bytes are written as quotients and
-- remainders.
pub mod Laws
use kommunsign.Prelude.{
  ℕ, ◌+◌, ◌-◌, ◌*◌, ◌/◌, ◌%◌, Bool, List, [], ◌∷◌, ltb, nat_beq, map, filter, not, if◌then◌else◌,
}

-- The character at a place of BASE64_ALPHABET.
abbrev pub alphabet : ℕ → ℕ
alphabet i =
    if ltb i 26
    then 65 + i
    else if ltb i 52
    then 71 + i
    else if ltb i 62
    then i - 4
    else if nat_beq i 62
    then 43
    else 47

abbrev pub combined : ℕ → ℕ → ℕ → ℕ
combined first second third = first * 65536 + second * 256 + third

-- One round of the loop: the four characters of `combined`, as far as there are bytes.
unfoldable pub base64_encode : List ℕ → List ℕ
base64_encode [] = []
base64_encode (a ∷ []) =
    alphabet (combined a 0 0 / 262144 % 64) ∷ alphabet (combined a 0 0 / 4096 % 64) ∷ 61 ∷ 61 ∷ []
base64_encode (a ∷ b ∷ []) =
    alphabet (combined a b 0 / 262144 % 64)
    ∷ alphabet (combined a b 0 / 4096 % 64)
    ∷ alphabet (combined a b 0 / 64 % 64)
    ∷ 61
    ∷ []
base64_encode (a ∷ b ∷ c ∷ bytes) =
    alphabet (combined a b c / 262144 % 64)
    ∷ alphabet (combined a b c / 4096 % 64)
    ∷ alphabet (combined a b c / 64 % 64)
    ∷ alphabet (combined a b c % 64)
    ∷ base64_encode bytes

-- `.replace(/\+/g, '-').replace(/\//g, '_')`, on one character.
abbrev pub url_letter : ℕ → ℕ
url_letter c = if nat_beq c 43 then 45 else if nat_beq c 47 then 95 else c

-- `.replace(/=+$/g, '')`
unfoldable pub drop_padding : List ℕ → List ℕ
drop_padding [] = []
drop_padding (c ∷ s) =
    let rest = drop_padding s in
    elim rest [ [] ↦ if nat_beq c 61 then [] else c ∷ [] | d ∷ t ↦ c ∷ d ∷ t ]

unfoldable pub base64_url_encode : List ℕ → List ℕ
base64_url_encode bytes = drop_padding (map url_letter (base64_encode bytes))
