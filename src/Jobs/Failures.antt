-- ===== src/Jobs/Failures.antt =====
-- What the repository is told of a failure.
use kommunsign.Prelude.{
  ℕ, zero, suc, ◌≤◌, ◌≡◌, refl, true, ◌&&◌, List, [], ◌∷◌, arith, inl, inr, Bool-cases, &&-true_iff,
  map, leb, all, length, take,
}
use kommunsign.Jobs.{
  Cause, not_error, error, is_code_letter, to_code_letter, or_worker_error, is_message_code,
  safe_worker_error_code, failure_code,
}

-- A text of capital letters, digits and underscores, of 1 to 80 of them.
pub record IsSafeCode (code : List ℕ) : Type 0 where
  pub plain : all is_code_letter code ≡ true
  pub some_letter : 1 ≤ length code
  pub short : length code ≤ 80

plain_letters : (n : ℕ) (s : List ℕ) → all is_code_letter (take n (map to_code_letter s)) ≡ true
plain_letters zero s = refl
plain_letters (suc n) [] = refl
plain_letters (suc n) (c ∷ s) =
    let e : is_code_letter (to_code_letter c) ≡ true = ground arith in
    rw (e, plain_letters n s) refl

length_taken : (n : ℕ) (s : List ℕ) → length (take n s) ≤ n
length_taken zero s = omega arith
length_taken (suc n) [] = omega arith
length_taken (suc n) (c ∷ s) = omega (arith, length_taken n s)

safe_or :
    (s : List ℕ) → all is_code_letter s ≡ true → length s ≤ 80 → IsSafeCode (or_worker_error s)
safe_or [] plain short = record { plain = refl; some_letter = omega arith; short = omega arith }
safe_or (c ∷ s) plain short = record { plain = plain; some_letter = omega arith; short = short }

safe_message : (message : List ℕ) → is_message_code message ≡ true → IsSafeCode message
safe_message [] h = absurd (cc)
safe_message (c ∷ s) h =
    let (first, later) =
      (&&-true_iff (leb 65 c && leb c 90)
          (leb 2 (length s) && leb (length s) 79 && all is_code_letter s)).0
        h in
    record { plain = ground arith; some_letter = omega arith; short = ground arith }

-- What the repository is told of a failure is a code of capital letters, digits and underscores,
-- whatever was thrown and however it is turned to capitals.
pub failure_code_lem :
    (upper : List ℕ → List ℕ) (cause : Cause) → IsSafeCode (failure_code upper cause)
unfolding failure_code safe_worker_error_code
failure_code_lem upper not_error = record {
  plain = refl;
  some_letter = omega arith;
  short = omega arith;
}
failure_code_lem upper (error name message) =
    let named =
      safe_or (take 80 (map to_code_letter (upper name))) (plain_letters 80 (upper name))
        (length_taken 80 (map to_code_letter (upper name))) in
    elim (Bool-cases (is_message_code message)) [
      | inl given ↦ rw given (safe_message message given)
      | inr other ↦ rw other named
    ]
