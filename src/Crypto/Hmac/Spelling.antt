-- ===== src/Crypto/Hmac/Spelling.antt =====
-- Which texts pass as a signature: those that spell the MAC.
use kommunsign.Prelude.{
  ℕ, suc, ◌+◌, ◌*◌, ◌<◌, ◌≤◌, ◌≡◌, ◌≢◌, refl, ap, subst, ◌↔◌, ◌⊎◌, true, false, not, ◌||◌, List, [],
  ◌∷◌, ◌++◌, arith, leb, length, drop, is_empty, inl, inr, Bool-cases, &&-true_iff, all, Result, ok,
  err, ok_injective,
}
use kommunsign.Prelude.Text.{codes, trim_codes, starts_with}
use kommunsign.Crypto.Hex.{
  HexError, invalid_hex, is_hex_letter, digit_value, is_even, parse_pairs, from_hex,
}
use kommunsign.Crypto.Hex.Laws.{AreBytes}
use kommunsign.Crypto.Hmac.{normalize_signature, verify_hmac_sha256_hex}
use kommunsign.Crypto.Hmac.Laws.{decoded_iff}

-- The letter of a hexadecimal digit: 0 to 9, a to f or A to F.
pub data IsDigit : ℕ → ℕ → Type 0 where
  decimal_digit : (v : ℕ) → v < 10 → IsDigit v (48 + v)
  small_letter : (v : ℕ) → 10 ≤ v → v < 16 → IsDigit v (87 + v)
  capital_letter : (v : ℕ) → 10 ≤ v → v < 16 → IsDigit v (55 + v)

-- Two digits for each byte, the higher first.
pub data Spells : List ℕ → List ℕ → Type 0 where
  no_byte : Spells [] []
  a_byte :
      (high low h l : ℕ) (text bytes : List ℕ)
      → IsDigit high h
      → IsDigit low l
      → Spells text bytes
      → Spells (h ∷ l ∷ text) ((high * 16 + low) ∷ bytes)

-- A signature of such digits, with or without its prefix, and with white space around it.
pub record IsSignature (provided bytes : List ℕ) : Type 0 where
  pub digits : List ℕ
  pub written : (trim_codes provided ≡ digits) ⊎ (trim_codes provided ≡ codes "sha256=" ++ digits)
  pub spelled : Spells digits bytes

digit_value-IsDigit : (c : ℕ) → is_hex_letter c ≡ true → IsDigit (digit_value c) c
digit_value-IsDigit c h = elim (Bool-cases (leb c 57)) [
  | inl low ↦
      let e : 48 + digit_value c ≡ c = ground (arith, h, low) in
      subst (IsDigit (digit_value c)) e (decimal_digit (digit_value c) (ground (arith, h, low)))
  | inr high ↦ elim (Bool-cases (leb 97 c)) [
    | inl small ↦
        let e : 87 + digit_value c ≡ c = ground (arith, h, high, small) in
        subst (IsDigit (digit_value c)) e (
          small_letter (digit_value c) (ground (arith, h, high, small))
            (ground (arith, h, high, small)))
    | inr capital ↦
        let e : 55 + digit_value c ≡ c = ground (arith, h, high, capital) in
        subst (IsDigit (digit_value c)) e (
          capital_letter (digit_value c) (ground (arith, h, high, capital))
            (ground (arith, h, high, capital)))
  ]
]

IsDigit-letter : (v c : ℕ) → IsDigit v c → (is_hex_letter c ≡ true) × (digit_value c ≡ v)
IsDigit-letter v c (decimal_digit w low) = (ground (arith, low), ground (arith, low))
IsDigit-letter v c (small_letter w low high) =
    (ground (arith, low, high), ground (arith, low, high))
IsDigit-letter v c (capital_letter w low high) =
    (ground (arith, low, high), ground (arith, low, high))

parse_pairs-Spells :
    (s : List ℕ) → all is_hex_letter s ≡ true → is_even (length s) ≡ true → Spells s (parse_pairs s)
unfolding parse_pairs
parse_pairs-Spells [] letters even = no_byte
parse_pairs-Spells (a ∷ []) letters even = absurd (cc)
parse_pairs-Spells (a ∷ b ∷ s) letters even =
    let (first, rest) = (&&-true_iff (is_hex_letter a) (all is_hex_letter (b ∷ s))).0 letters in
    let (second, later) = (&&-true_iff (is_hex_letter b) (all is_hex_letter s)).0 rest in
    a_byte (digit_value a) (digit_value b) a b s (parse_pairs s) (digit_value-IsDigit a first)
      (digit_value-IsDigit b second) (parse_pairs-Spells s later (ground (arith, even)))

even_step : (n : ℕ) → is_even n ≡ true → is_even (suc (suc n)) ≡ true
even_step n h = ground (arith, h)

Spells-parts :
    (s bytes : List ℕ)
    → Spells s bytes
    → (all is_hex_letter s ≡ true) × (is_even (length s) ≡ true) × (parse_pairs s ≡ bytes)
unfolding parse_pairs
Spells-parts s bytes no_byte = (refl, refl, refl)
Spells-parts s bytes (a_byte high low h l text rest dh dl spelled) =
    let (letters, even, parsed) = Spells-parts text rest spelled in
    let (first, one) = IsDigit-letter high h dh in
    let (second, two) = IsDigit-letter low l dl in
    (rw (first, second) letters, even_step (length text) even, rw (one, two, parsed) refl)

from_hex-Spells : (s bytes : List ℕ) → from_hex s ≡ ok bytes → Spells s bytes
unfolding from_hex
from_hex-Spells s bytes h =
    elim (Bool-cases (is_empty s || not (all is_hex_letter s) || not (is_even (length s)))) [
      | inl bad ↦
          let e : ◌≡◌ {A = Result HexError (List ℕ)} (err invalid_hex) (ok bytes) = rw bad at h in
          absurd (cc)
      | inr good ↦
          let e : ◌≡◌ {A = Result HexError (List ℕ)} (ok (parse_pairs s)) (ok bytes) =
            rw good at h in
          subst (Spells s) (ok_injective e)
            (parse_pairs-Spells s (ground (arith, good)) (ground (arith, good)))
    ]

Spells-from_hex : (s bytes : List ℕ) → Spells s bytes → bytes ≢ [] → from_hex s ≡ ok bytes
unfolding from_hex
Spells-from_hex s bytes spelled some_byte =
    let (letters, even, parsed) = Spells-parts s bytes spelled in
    let full : is_empty s ≡ false = filled s bytes spelled some_byte in
    rw (full, letters, even, parsed) refl
  where
    filled : (s bytes : List ℕ) → Spells s bytes → bytes ≢ [] → is_empty s ≡ false
    filled s bytes no_byte some_byte = absurd (some_byte refl)
    filled s bytes (a_byte high low h l text rest dh dl spelled) some_byte = refl

starts_with-drop :
    (part text : List ℕ) → starts_with part text ≡ true → text ≡ part ++ drop (length part) text
starts_with-drop [] text h = refl
starts_with-drop (a ∷ part) [] h = absurd (cc)
starts_with-drop (a ∷ part) (b ∷ text) h =
    let rest = starts_with-drop part text (ground (arith, h)) in
    let first : a ≡ b = ground (arith, h) in rw first (ap (λ l. b ∷ l) rest)

plain_digits : (s bytes : List ℕ) → Spells s bytes → starts_with (codes "sha256=") s ≡ false
plain_digits s bytes no_byte = refl
plain_digits s bytes (a_byte high low h l text rest dh dl spelled) =
    let (first, one) = IsDigit-letter high h dh in ground (arith, first)

IsSignature-iff :
    (provided bytes : List ℕ)
    → bytes ≢ []
    → (from_hex (normalize_signature provided) ≡ ok bytes) ↔ IsSignature provided bytes
unfolding normalize_signature
IsSignature-iff provided bytes some_byte =
    let trimmed = trim_codes provided in
    (
      λ h. elim (Bool-cases (starts_with (codes "sha256=") trimmed)) [
        | inl prefixed ↦ record {
          digits = drop 7 trimmed;
          written = inr (starts_with-drop (codes "sha256=") trimmed prefixed);
          spelled = from_hex-Spells (drop 7 trimmed) bytes (rw prefixed at h);
        }
        | inr plain ↦ record {
          digits = trimmed;
          written = inl refl;
          spelled = from_hex-Spells trimmed bytes (rw plain at h);
        }
      ],
      λ r. elim r.written [
        | inl plain ↦
            rw (plain, plain_digits r.digits bytes r.spelled)
              (Spells-from_hex r.digits bytes r.spelled some_byte)
        | inr prefixed ↦ rw prefixed (Spells-from_hex r.digits bytes r.spelled some_byte)
      ],
    )

-- A signature passes exactly when it is written, up to white space around it, with two hexadecimal
-- digits of either case for each byte of the MAC of the payload, with the prefix sha256= or without
-- it, where the MAC is of bytes and at least one.
pub verification_iff :
    (mac : List ℕ → List ℕ → List ℕ) (secret payload provided : List ℕ)
    → AreBytes (mac secret payload)
    → mac secret payload ≢ []
    → (verify_hmac_sha256_hex mac secret payload provided ≡ true)
      ↔ IsSignature provided (mac secret payload)
verification_iff mac secret payload provided bytes some_byte =
    let decoded = decoded_iff mac secret payload provided bytes some_byte in
    let signed = IsSignature-iff provided (mac secret payload) some_byte in
    (λ h. signed.0 (decoded.0 h), λ s. decoded.1 (signed.1 s))
