-- ===== src/Crypto/Hmac/Laws.antt =====
-- The comparison in constant time is equality, and a signature passes exactly if it decodes to the MAC.
use Prim.Native.Nat.{bit_xor}
use kommunsign.Prelude.{
  ℕ, zero, suc, ◌+◌, ◌%◌, ◌<◌, max, ◌≡◌, ◌≢◌, refl, sym, ap, subst, ◌∙◌, ◌↔◌, true, false, List, [],
  ◌∷◌, ◌++◌, arith, nat_beq_iff, length, inl, inr, &&-true_iff, all, Result-cases, ok, ok_injective,
}
use kommunsign.Prelude.Text.{
  codes, trim_codes, trim_codes_end, push_unless_end, is_space, starts_with,
}
use kommunsign.Crypto.Bits.{bit_or-eq-zero, bit_xor-eq-zero}
use kommunsign.Crypto.Hex.{to_hex, from_hex, is_hex_letter}
use kommunsign.Crypto.Hex.Laws.{AreBytes, from_hex-to_hex, to_hex-letters}
use kommunsign.Crypto.Hmac.{
  normalize_signature, byte_at, wrapped_at, collect_diff, constant_time_equal, hmac_sha256_hex,
  verify_hmac_sha256_hex,
}

-- No difference at the indices from `i` on.
abbrev Agree : List ℕ → List ℕ → ℕ → ℕ → Type 0
Agree left right rounds i =
    (j : ℕ) → j < rounds → wrapped_at left (i + j) ≡ wrapped_at right (i + j)

Agree-step :
    (left right : List ℕ) (rounds i : ℕ)
    → wrapped_at left i ≡ wrapped_at right i
    → Agree left right rounds (i + 1)
    → Agree left right (suc rounds) i
Agree-step left right rounds i here later zero lt = let e : i + 0 ≡ i = omega arith in rw e here
Agree-step left right rounds i here later (suc j) lt =
    let e : i + suc j ≡ i + 1 + j = omega arith in rw e (later j (omega arith))

collect_diff-zero :
    (left right : List ℕ) (rounds i diff : ℕ)
    → collect_diff left right rounds i diff ≡ 0
    → (diff ≡ 0) × Agree left right rounds i
unfolding collect_diff
collect_diff-zero left right zero i diff h = (h, λ j lt. absurd (omega arith))
collect_diff-zero left right (suc rounds) i diff h =
    let (both, rest) = collect_diff-zero left right rounds (i + 1) _ h in
    let (before, here) = (bit_or-eq-zero diff _).0 both in
    let same = (bit_xor-eq-zero (wrapped_at left i) (wrapped_at right i)).0 here in
    (before, Agree-step left right rounds i same rest)

zero_collect_diff :
    (bytes : List ℕ) (rounds i diff : ℕ) → diff ≡ 0 → collect_diff bytes bytes rounds i diff ≡ 0
unfolding collect_diff
zero_collect_diff bytes zero i diff h = h
zero_collect_diff bytes (suc rounds) i diff h = zero_collect_diff bytes rounds (i + 1) _ (
    (bit_or-eq-zero diff _).1
      (h, (bit_xor-eq-zero (wrapped_at bytes i) (wrapped_at bytes i)).1 refl))

-- Lists of one length that agree at each index are the same.
same_of_bytes :
    (left right : List ℕ)
    → length left ≡ length right
    → ((j : ℕ) → j < length left → byte_at left j ≡ byte_at right j)
    → left ≡ right
same_of_bytes [] [] e h = refl
same_of_bytes [] (r ∷ rs) e h = absurd (omega arith)
same_of_bytes (l ∷ ls) [] e h = absurd (omega arith)
same_of_bytes (l ∷ ls) (r ∷ rs) e h =
    let first : l ≡ r = h 0 (omega arith) in
    let later = same_of_bytes ls rs (omega arith) (λ j lt. h (suc j) (omega arith)) in cc

unwrapped : (bytes : List ℕ) (j : ℕ) → j < length bytes → wrapped_at bytes j ≡ byte_at bytes j
unwrapped bytes j lt = let e : j % length bytes ≡ j = grind arith in rw e refl

-- The comparison that takes as long whatever the bytes are is their equality.
pub constant_time_equal_iff :
    (left right : List ℕ) → (constant_time_equal left right ≡ true) ↔ (left ≡ right)
unfolding constant_time_equal
constant_time_equal_iff left right = (
  λ h.
      let rounds : ℕ = max (length left) (length right) in
      let (lengths, agree) =
        collect_diff-zero left right rounds 0 (bit_xor (length left) (length right))
          ((nat_beq_iff _ 0).0 h) in
      let same = (bit_xor-eq-zero (length left) (length right)).0 lengths in
      same_of_bytes left right same (λ j lt.
        let e : 0 + j ≡ j = omega arith in
        let at : wrapped_at left j ≡ wrapped_at right j =
          subst (λ k. wrapped_at left k ≡ wrapped_at right k) e (agree j (omega arith)) in
        sym (unwrapped left j lt) ∙ at ∙ unwrapped right j (omega arith)),
  λ e. rw e (
      (nat_beq_iff _ 0).1
        (zero_collect_diff right _ 0 _ ((bit_xor-eq-zero (length right) (length right)).1 refl))),
)

module _ (mac : List ℕ → List ℕ → List ℕ) where
  -- A signature passes exactly when it decodes to the MAC of the payload, where the MAC is of bytes
  -- and at least one.
  pub decoded_iff :
      (secret payload provided : List ℕ)
      → AreBytes (mac secret payload)
      → mac secret payload ≢ []
      → (verify_hmac_sha256_hex mac secret payload provided ≡ true)
        ↔ (from_hex (normalize_signature provided) ≡ ok (mac secret payload))
  unfolding verify_hmac_sha256_hex hmac_sha256_hex
  decoded_iff secret payload provided bytes some_byte =
      let expected = from_hex-to_hex (mac secret payload) bytes some_byte in
      elim (Result-cases (from_hex (normalize_signature provided))) [
        | inl (given, read) ↦
            let same = constant_time_equal_iff (mac secret payload) given in
            rw (expected, read) (λ h. ap ok (sym (same.0 h)), λ e. same.1 (sym (ok_injective e)))
        | inr (thrown, read) ↦ rw (expected, read) (λ h. absurd (cc), λ e. absurd (cc))
      ]

no_space : (c : ℕ) → is_hex_letter c ≡ true → is_space c ≡ false
no_space c h = ground arith

trim_codes_end-hex : (s : List ℕ) → all is_hex_letter s ≡ true → trim_codes_end s ≡ s
trim_codes_end-hex [] h = refl
trim_codes_end-hex (c ∷ s) h =
    let (first, later) = (&&-true_iff (is_hex_letter c) (all is_hex_letter s)).0 h in
    rw (trim_codes_end-hex s later) (kept_at c s (no_space c first))
  where
    kept_at : (c : ℕ) (s : List ℕ) → is_space c ≡ false → push_unless_end c s ≡ c ∷ s
    kept_at c [] e = rw e refl
    kept_at c (d ∷ t) e = refl

-- Hexadecimal digits are a signature as they stand.
pub normalize_signature-hex : (s : List ℕ) → all is_hex_letter s ≡ true → normalize_signature s ≡ s
unfolding normalize_signature trim_codes
normalize_signature-hex [] h = refl
normalize_signature-hex (c ∷ s) h =
    let (first, later) = (&&-true_iff (is_hex_letter c) (all is_hex_letter s)).0 h in
    let plain : starts_with (codes "sha256=") (c ∷ s) ≡ false = ground arith in
    rw (no_space c first, trim_codes_end-hex (c ∷ s) h, plain) refl

-- The prefix is taken away.
pub normalize_signature-append :
    (s : List ℕ) → all is_hex_letter s ≡ true → normalize_signature (codes "sha256=" ++ s) ≡ s
unfolding normalize_signature trim_codes
normalize_signature-append [] h = refl
normalize_signature-append (c ∷ s) h = rw (trim_codes_end-hex (c ∷ s) h) refl

module _ (mac : List ℕ → List ℕ → List ℕ) where
  -- The signature that is made passes.
  pub verification-own :
      (secret payload : List ℕ)
      → AreBytes (mac secret payload)
      → mac secret payload ≢ []
      → verify_hmac_sha256_hex mac secret payload (to_hex (mac secret payload)) ≡ true
  verification-own secret payload bytes some_byte =
      (decoded_iff mac secret payload (to_hex (mac secret payload)) bytes some_byte).1 (
        rw (normalize_signature-hex _ (to_hex-letters _ bytes))
          (from_hex-to_hex (mac secret payload) bytes some_byte))

  -- With its prefix as well.
  pub verification-append :
      (secret payload : List ℕ)
      → AreBytes (mac secret payload)
      → mac secret payload ≢ []
      → verify_hmac_sha256_hex mac secret payload (codes "sha256=" ++ to_hex (mac secret payload))
        ≡ true
  verification-append secret payload bytes some_byte =
      (decoded_iff mac secret payload (codes "sha256=" ++ to_hex (mac secret payload)) bytes
          some_byte).1
        (rw (normalize_signature-append _ (to_hex-letters _ bytes))
          (from_hex-to_hex (mac secret payload) bytes some_byte))
