-- ===== src/Crypto/Base64/Laws.antt =====
-- The encoded text determines the bytes.
use kommunsign.Prelude.{
  ℕ, ◌+◌, ◌-◌, ◌*◌, ◌/◌, ◌%◌, ◌<◌, ◌≡◌, refl, false, List, [], ◌∷◌, arith, ltb, nat_beq,
  if◌then◌else◌,
}
use kommunsign.Crypto.Hex.Laws.{AreBytes}
use kommunsign.Crypto.Base64.{alphabet, combined, base64_encode}

-- The place of a character in the alphabet.
abbrev pub place : ℕ → ℕ
place c =
    if nat_beq c 43
    then 62
    else if nat_beq c 47
    then 63
    else if ltb c 58
    then c + 4
    else if ltb c 91
    then c - 65
    else c - 71

abbrev first_byte : ℕ → ℕ → ℕ
first_byte w x = place w * 4 + place x / 16

abbrev second_byte : ℕ → ℕ → ℕ
second_byte x y = place x % 16 * 16 + place y / 4

abbrev third_byte : ℕ → ℕ → ℕ
third_byte y z = place y % 4 * 64 + place z

-- A decoder after RFC 4648, section 4, for texts that are well formed.
pub base64_decode : List ℕ → List ℕ
base64_decode (w ∷ x ∷ y ∷ z ∷ s) =
    let rest = base64_decode s in
    if nat_beq y 61
    then first_byte w x ∷ []
    else if nat_beq z 61
    then first_byte w x ∷ second_byte x y ∷ []
    else first_byte w x ∷ second_byte x y ∷ third_byte y z ∷ rest
base64_decode s = []

place-alphabet : (i : ℕ) → i < 64 → place (alphabet i) ≡ i
place-alphabet i h = ground arith

alphabet-ne-padding : (i : ℕ) → nat_beq (alphabet i) 61 ≡ false
alphabet-ne-padding i = ground arith

module _ (a b c : ℕ) (ha : a < 256) (hb : b < 256) (hc : c < 256) where
  abbrev group : ℕ
  group = combined a b c

  first_lem : first_byte (alphabet (group / 262144 % 64)) (alphabet (group / 4096 % 64)) ≡ a
  first_lem =
      rw
        (
          place-alphabet (group / 262144 % 64) (omega arith),
          place-alphabet (group / 4096 % 64) (omega arith),
        )
        (omega arith)

  second_lem : second_byte (alphabet (group / 4096 % 64)) (alphabet (group / 64 % 64)) ≡ b
  second_lem =
      rw
        (
          place-alphabet (group / 4096 % 64) (omega arith),
          place-alphabet (group / 64 % 64) (omega arith),
        )
        (omega arith)

  third_lem : third_byte (alphabet (group / 64 % 64)) (alphabet (group % 64)) ≡ c
  third_lem =
      rw (place-alphabet (group / 64 % 64) (omega arith), place-alphabet (group % 64) (omega arith))
        (omega arith)

-- The decoder of the standard gives back the bytes that were encoded.
pub base64_decode-base64_encode :
    (bytes : List ℕ) → AreBytes bytes → base64_decode (base64_encode bytes) ≡ bytes
unfolding base64_decode base64_encode
base64_decode-base64_encode [] h = refl
base64_decode-base64_encode (a ∷ []) h = rw (first_lem a 0 0 h.0 (omega arith) (omega arith)) refl
base64_decode-base64_encode (a ∷ b ∷ []) h =
    rw
      (
        alphabet-ne-padding (combined a b 0 / 64 % 64),
        first_lem a b 0 h.0 h.1.0 (omega arith),
        second_lem a b 0 h.0 h.1.0 (omega arith),
      )
      refl
base64_decode-base64_encode (a ∷ b ∷ c ∷ bytes) h =
    rw
      (
        alphabet-ne-padding (combined a b c / 64 % 64),
        alphabet-ne-padding (combined a b c % 64),
        first_lem a b c h.0 h.1.0 h.1.1.0,
        second_lem a b c h.0 h.1.0 h.1.1.0,
        third_lem a b c h.0 h.1.0 h.1.1.0,
        base64_decode-base64_encode bytes h.1.1.1,
      )
      refl
