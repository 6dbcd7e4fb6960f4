-- ===== src/PersonalNumber/Dates.antt =====
-- Which dates a personal identity number can carry.
use kommunsign.Prelude.{
  ℕ, zero, suc, ◌+◌, ◌-◌, ◌*◌, ◌/◌, ◌%◌, ◌≤◌, ◌≡◌, refl, sym, ◌⊎◌, inl, inr, Bool, true, not, ◌&&◌,
  ◌||◌, Option, none, some, List, [], ◌∷◌, arith, ok, err, Result, throw_if, leb, ◌==◌, nat_eq,
  length, take, drop, Bool-cases, ==_iff, subst, All, >>-eq-ok,
}
use kommunsign.PersonalNumber.{
  CalendarDate, days_in_month, next_month, next_year, carry_days, from_day, utc_year, make_date,
  is_calendar_date, year_of, month_of, day_of, luhn_valid, check_number, to_twelve, infer_century,
  normalise_digits, read_digits, strip, PersonalNumberError, push_digit, number_of,
  personal_number_invalid, normalise_swedish_personal_number,
}

-- A day of the calendar.
pub record IsDay (year month day : ℕ) : Type 0 where
  pub some_month : 1 ≤ month
  pub last_month : month ≤ 12
  pub some_day : 1 ≤ day
  pub last_day : day ≤ days_in_month year month

abbrev IsDate : CalendarDate → Type 0
IsDate date = IsDay date.year date.month date.day

month_bounds : (year month : ℕ) → (28 ≤ days_in_month year month) × (days_in_month year month ≤ 31)
unfolding days_in_month
month_bounds year month = (ground arith, ground arith)

carried :
    (n year month day : ℕ)
    → 1 ≤ month
    → month ≤ 12
    → 1 ≤ day
    → day ≤ 28 * n + 28
    → IsDate (carry_days n year month day)
unfolding carry_days
carried zero year month day m m' d d' = record {
  some_month = m;
  last_month = m';
  some_day = d;
  last_day = omega (arith, d', (month_bounds year month).0);
}
carried (suc n) year month day m m' d d' = elim (Bool-cases (leb day (days_in_month year month))) [
  | inl within ↦
      rw within (record {
        some_month = m;
        last_month = m';
        some_day = d;
        last_day = ground (arith, within);
      })
  | inr over ↦ rw over (
      carried n (next_year year month) (next_month month) (day - days_in_month year month)
        (ground (arith, m)) (ground (arith, m')) (ground (arith, over))
        (ground (arith, d', (month_bounds year month).0)))
]

december : (year : ℕ) → IsDay year 12 31
unfolding days_in_month
december year = record {
  some_month = omega arith;
  last_month = omega arith;
  some_day = omega arith;
  last_day = omega arith;
}

counted :
    (year month day : ℕ) → 1 ≤ month → month ≤ 12 → day ≤ 112 → IsDate (from_day year month day)
unfolding from_day
counted year month zero m m' d = elim (Bool-cases (month == 1)) [
  | inl january ↦ rw january (december (year - 1))
  | inr later ↦ rw later (record {
    some_month = ground (arith, m, later);
    last_month = omega (arith, m');
    some_day = omega (arith, (month_bounds year (month - 1)).0);
    last_day = omega arith;
  })
]
counted year month (suc day) m m' d =
    carried 3 year month (suc day) m m' (omega arith) (omega (arith, d))

made : (year month day : ℕ) → day ≤ 112 → IsDate (make_date year month day)
unfolding make_date
made year zero day d = counted (utc_year year - 1) 12 day (omega arith) (omega arith) d
made year (suc month) day d =
    counted (utc_year year + month / 12) (month % 12 + 1) day (omega arith) (omega arith) d

both : (a b : Bool) → (a && b) ≡ true → (a ≡ true) × (b ≡ true)
both a b h = ground arith

-- A date that survives the round trip through `Date` is a day of the calendar.
calendar_sound :
    (year month day : ℕ) → day ≤ 112 → is_calendar_date year month day ≡ true → IsDay year month day
unfolding is_calendar_date
calendar_sound year month day d h =
    let date = make_date year month day in
    let (same_year, later) = both (date.year == year) _ h in
    let (same_month, same_day) = both (date.month == month) (date.day == day) later in
    let y = (==_iff date.year year).0 same_year in
    let m = (==_iff date.month month).0 same_month in
    let t = (==_iff date.day day).0 same_day in
    let valid = made year month day d in
    record {
      some_month = omega (arith, m, valid.some_month);
      last_month = omega (arith, m, valid.last_month);
      some_day = omega (arith, t, valid.some_day);
      last_day =
          subst (λ k. day ≤ days_in_month k month) y
            (subst (λ k. day ≤ days_in_month date.year k) m (omega (arith, t, valid.last_day)));
    }

some_injective : {a b : List ℕ} → ◌≡◌ {A = Option (List ℕ)} (some a) (some b) → a ≡ b
some_injective h = cc

abbrev AreDigits : List ℕ → Type 0
AreDigits = All (λ d. d ≤ 9)

push_sound :
    (c : ℕ) (read : Option (List ℕ)) {digits : List ℕ}
    → push_digit c read ≡ some digits
    → (rest : List ℕ) × (read ≡ some rest) × (digits ≡ (c - 48) ∷ rest) × (c - 48 ≤ 9)
push_sound c none h = absurd (none_some h)
  where
    none_some : {xs : List ℕ} → ◌≡◌ {A = Option (List ℕ)} none (some xs) → ⊥
    none_some e = cc
push_sound c (some rest) h = (rest, refl, ground (arith, h), ground (arith, h))

read_sound : (codes : List ℕ) {digits : List ℕ} → read_digits codes ≡ some digits → AreDigits digits
unfolding read_digits
read_sound [] h = rw (sym (some_injective h)) tt
read_sound (c ∷ codes) h =
    let (rest, read, same, small) = push_sound c (read_digits codes) h in
    rw same (small, read_sound codes read)

All-drop : (n : ℕ) (xs : List ℕ) → AreDigits xs → AreDigits (drop n xs)
All-drop zero xs h = h
All-drop (suc n) [] h = tt
All-drop (suc n) (x ∷ xs) h = All-drop n xs h.1

two_digits : (xs : List ℕ) → AreDigits xs → number_of (take 2 xs) ≤ 112
two_digits [] h = omega arith
two_digits (a ∷ []) h = omega (arith, h.0)
two_digits (a ∷ b ∷ xs) h = omega (arith, h.0, h.1.0)

length-drop-two : (xs : List ℕ) → 2 ≤ length xs → length (drop 2 xs) + 2 ≡ length xs
length-drop-two [] le = absurd (omega (arith, le))
length-drop-two (a ∷ []) le = absurd (omega (arith, le))
length-drop-two (a ∷ b ∷ xs) le = omega arith

inferred :
    (ten : List ℕ) (reference : CalendarDate)
    → AreDigits ten
    → length ten ≡ 10
    → AreDigits (infer_century ten reference) × (length (infer_century ten reference) ≡ 12)
unfolding infer_century
inferred ten reference digits n = (
  (omega arith, (omega arith, (omega arith, (omega arith, All-drop 2 ten digits)))),
  omega (arith, length-drop-two ten (omega (arith, n)), n),
)

-- Twelve digits with a day of the calendar and a valid check digit.
pub record IsPersonalNumber (number : List ℕ) : Type 0 where
  pub twelve : length number ≡ 12
  pub digits : All (λ d. d ≤ 9) number
  pub born : IsDay (year_of number) (month_of number) (day_of number)
  pub checked : luhn_valid (drop 2 number) ≡ true

check_sound :
    (twelve : List ℕ) {number : List ℕ}
    → check_number twelve ≡ ok number
    → (number ≡ twelve)
      × (is_calendar_date (year_of twelve) (month_of twelve) (day_of twelve) ≡ true)
      × (luhn_valid (drop 2 twelve) ≡ true)
unfolding check_number
check_sound twelve h = (ground (arith, h), ground (arith, h), ground (arith, h))

twelve_sound :
    (digits : List ℕ) (reference : CalendarDate)
    → AreDigits digits
    → (length digits ≡ 10) ⊎ (length digits ≡ 12)
    → AreDigits (to_twelve digits reference) × (length (to_twelve digits reference) ≡ 12)
twelve_sound digits reference small n = elim (Bool-cases (length digits == 12)) [
  | inl long ↦ rw long (small, ground (arith, long))
  | inr short ↦ rw short (inferred digits reference small (ground (arith, n, short)))
]

digits_sound :
    (read : Option (List ℕ)) (reference : CalendarDate) {number : List ℕ}
    → ((digits : List ℕ) → read ≡ some digits → AreDigits digits)
    → normalise_digits read reference ≡ ok number
    → IsPersonalNumber number
unfolding normalise_digits
digits_sound none reference small h = absurd (refused h)
  where
    refused :
        {n : List ℕ}
        → ◌≡◌ {A = Result PersonalNumberError (List ℕ)} (err personal_number_invalid) (ok n)
        → ⊥
    refused e = cc
digits_sound (some digits) reference small h =
    let (long, h1) =
      >>-eq-ok (throw_if (not (length digits == 10 || length digits == 12)) personal_number_invalid)
        (check_number (to_twelve digits reference)) h in
    let (same, day, valid) = check_sound (to_twelve digits reference) h1 in
    let (all, count) = twelve_sound digits reference (small digits refl) (ground (arith, long)) in
    rw same (record {
      twelve = count;
      digits = all;
      born =
          calendar_sound _ _ _
            (two_digits (drop 6 (to_twelve digits reference))
              (All-drop 6 (to_twelve digits reference) all))
            day;
      checked = valid;
    })

-- What is let pass as a personal identity number has twelve digits, those of a day of the calendar
-- and a valid check digit, with or without the century in the input.
pub IsPersonalNumber-sound :
    (input : List ℕ) (reference : CalendarDate) {number : List ℕ}
    → normalise_swedish_personal_number input reference ≡ ok number
    → IsPersonalNumber number
unfolding normalise_swedish_personal_number
IsPersonalNumber-sound input reference h =
    digits_sound (read_digits (strip input)) reference (λ digits. read_sound (strip input)) h
