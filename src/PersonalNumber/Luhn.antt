-- ===== src/PersonalNumber/Luhn.antt =====
-- What the check digit detects.
use kommunsign.Prelude.{
  ℕ, ◌+◌, ◌%◌, ◌≤◌, ◌≡◌, ◌≢◌, Bool, true, false, not, List, [], ◌∷◌, ◌++◌, arith, nat_eq,
  Bool-cases, inl, inr,
}
use kommunsign.PersonalNumber.{luhn_value, luhn_sum, luhn_valid}

value_bound : (doubled : Bool) (d : ℕ) → d ≤ 9 → luhn_value doubled d ≤ 9
value_bound doubled d le = ground arith

value_injective :
    (doubled : Bool) (a b : ℕ) → a ≤ 9 → b ≤ 9 → luhn_value doubled a ≡ luhn_value doubled b → a ≡ b
value_injective doubled a b la lb h = ground arith

-- A digit counts by its place, and the others by themselves.
one_place :
    (doubled : Bool) (front back : List ℕ)
    → (rest : ℕ) × ((flag : Bool) × ((d : ℕ)
          → luhn_sum doubled (front ++ (d ∷ back)) ≡ rest + luhn_value flag d))
one_place doubled [] back = (luhn_sum (not doubled) back, (doubled, λ d. omega arith))
one_place doubled (f ∷ front) back =
    let (rest, (flag, counts)) = one_place (not doubled) front back in
    (luhn_value doubled f + rest, (flag, λ d. omega (arith, counts d)))

differ : (rest x y : ℕ) → x ≤ 9 → y ≤ 9 → (rest + x) % 10 ≡ 0 → (rest + y) % 10 ≡ 0 → x ≡ y
differ rest x y lx ly h h' = omega arith

valid_sum : (digits : List ℕ) → luhn_valid digits ≡ true → luhn_sum true digits % 10 ≡ 0
unfolding luhn_valid
valid_sum digits h = ground (arith, h)

-- A single wrong digit is always detected: a number that is valid is not valid with another digit at
-- one of its places.
pub luhn_detects_single_error :
    (front back : List ℕ) (a b : ℕ)
    → a ≤ 9
    → b ≤ 9
    → a ≢ b
    → luhn_valid (front ++ (a ∷ back)) ≡ true
    → luhn_valid (front ++ (b ∷ back)) ≡ false
luhn_detects_single_error front back a b la lb ne h =
    let (rest, (flag, counts)) = one_place true front back in
    elim (Bool-cases (luhn_valid (front ++ (b ∷ back)))) [
      | inl still ↦ absurd (
          ne (
            value_injective flag a b la lb (
              differ rest (luhn_value flag a) (luhn_value flag b) (value_bound flag a la)
                (value_bound flag b lb) (omega (arith, counts a, valid_sum (front ++ (a ∷ back)) h))
                (omega (arith, counts b, valid_sum (front ++ (b ∷ back)) still)))))
      | inr detected ↦ detected
    ]
