-- ===== src/Crypto/Tokens/Laws.antt =====
-- The tokens that are made are of the kind that is accepted.
use kommunsign.Prelude.{
  ℕ, ◌≤◌, ◌≡◌, subst, true, ◌&&◌, List, arith, inl, inr, Bool-cases, ltb, leb, all, length, Result,
  ok, err, ok_injective,
}
use kommunsign.Prelude.Number.{Number, whole, negative, other}
use kommunsign.Crypto.Hex.{is_hex_letter, to_hex}
use kommunsign.Crypto.Hex.Laws.{AreBytes, to_hex-letters, length-to_hex}
use kommunsign.Crypto.Tokens.{TokenError, range_error, random_token, is_safe_opaque_token}

-- Of a source that gives as many bytes as it is asked for, every token that is made is accepted as
-- one, and has two digits for each byte, at least 64.
pub token-accepted :
    (random : ℕ → List ℕ) (asked : Number) (token : List ℕ)
    → ((n : ℕ) → (length (random n) ≡ n) × AreBytes (random n))
    → random_token random asked ≡ ok token
    → (is_safe_opaque_token token ≡ true) × (64 ≤ length token)
unfolding random_token is_safe_opaque_token
token-accepted random (whole n) token source h = elim (Bool-cases (ltb n 32)) [
  | inl short ↦ absurd (
      let e : ◌≡◌ {A = Result TokenError (List ℕ)} (err range_error) (ok token) = rw short at h in
      cc)
  | inr enough ↦
      let e : ◌≡◌ {A = Result TokenError (List ℕ)} (ok (to_hex (random n))) (ok token) =
        rw enough at h in
      let long : 64 ≤ length (to_hex (random n)) =
        ground (arith, length-to_hex (random n) (source n).1, (source n).0) in
      subst (λ (t : List ℕ). ((leb 64 (length t) && all is_hex_letter t) ≡ true) × (64 ≤ length t))
        (ok_injective e) (rw (to_hex-letters (random n) (source n).1) (ground arith), long)
]
token-accepted random (negative n) token source h = absurd (cc)
token-accepted random other token source h = absurd (cc)
