-- ===== src/PersonalNumber.antt =====
-- packages/personal-number/src/index.ts: Swedish personal identity numbers, and whether a signer is
-- bound to one beforehand.
mod Calendar
pub mod Luhn
pub mod Dates
pub mod Binding
unfoldable pub use Calendar.*
use kommunsign.Prelude.{
  ℕ, ◌+◌, ◌-◌, ◌*◌, ◌/◌, ◌%◌, String, Bool, ◌≡◌, arith, Eq, eq_by_index, is_some, is_none, includes,
  true, false, not, ◌&&◌, ◌||◌, Option, none, some, List, [], ◌∷◌, ◌++◌, Result, ok, err, ◌>>=◌,
  ◌>>◌, throw_if, if◌then◌else◌, leb, ltb, ◌==◌, nat_eq, filter, length, take, drop,
}
use kommunsign.Prelude.Text.{is_space, codes, trim, is_blank, utf16_length}

pub data PersonalNumberError : Type 0 where
  personal_number_invalid personal_number_required : PersonalNumberError
  exception_not_allowed exception_reason_required exception_reason_invalid : PersonalNumberError

-- `input.replace(/[\s+-]/g, '')`, on code points.
abbrev pub strip : List ℕ → List ℕ
strip codes = filter (λ c. not (is_space c || c == 43 || c == 45)) codes

abbrev pub push_digit : ℕ → Option (List ℕ) → Option (List ℕ)
push_digit c none = none
push_digit c (some digits) = if leb 48 c && leb c 57 then some ((c - 48) ∷ digits) else none

-- The digits of a text that has only digits.
unfoldable pub read_digits : List ℕ → Option (List ℕ)
read_digits [] = some []
read_digits (c ∷ codes) = push_digit c (read_digits codes)

-- `Number(digits)`
abbrev pub number_from : ℕ → List ℕ → ℕ
number_from n [] = n
number_from n (d ∷ digits) = number_from (10 * n + d) digits

abbrev pub number_of : List ℕ → ℕ
number_of = number_from 0

-- `String(year).padStart(4, '0')`, for a year of at most four digits.
abbrev pub four_digits : ℕ → List ℕ
four_digits year = year / 1000 % 10 ∷ year / 100 % 10 ∷ year / 10 % 10 ∷ year % 10 ∷ []

-- `referenceDate` as the day that it falls on: the candidate is the midnight of its day, so that the
-- time of the day makes no difference.
unfoldable pub infer_century : List ℕ → CalendarDate → List ℕ
infer_century ten reference =
    let year = reference.year / 100 * 100 + number_of (take 2 ten) in
    let candidate =
      make_date year (number_of (take 2 (drop 2 ten))) (number_of (take 2 (drop 4 ten))) in
    four_digits (if is_later candidate reference then year - 100 else year) ++ drop 2 ten

abbrev pub luhn_value : Bool → ℕ → ℕ
luhn_value doubled digit =
    let value = if doubled then 2 * digit else digit in if ltb 9 value then value - 9 else value

-- The loop, which doubles at every other place.
abbrev pub luhn_sum : Bool → List ℕ → ℕ
luhn_sum doubled [] = 0
luhn_sum doubled (digit ∷ digits) = luhn_value doubled digit + luhn_sum (not doubled) digits

unfoldable pub luhn_valid : List ℕ → Bool
luhn_valid ten = length ten == 10 && luhn_sum true ten % 10 == 0

abbrev pub year_of : List ℕ → ℕ
year_of twelve = number_of (take 4 twelve)

abbrev pub month_of : List ℕ → ℕ
month_of twelve = number_of (take 2 (drop 4 twelve))

abbrev pub day_of : List ℕ → ℕ
day_of twelve = number_of (take 2 (drop 6 twelve))

abbrev pub to_twelve : List ℕ → CalendarDate → List ℕ
to_twelve digits reference = if length digits == 12 then digits else infer_century digits reference

unfoldable pub check_number : List ℕ → Result PersonalNumberError (List ℕ)
check_number twelve = do
  throw_if
      (not (is_calendar_date (year_of twelve) (month_of twelve) (day_of twelve))
        || not (luhn_valid (drop 2 twelve)))
      personal_number_invalid
  ok twelve

unfoldable pub normalise_digits :
    Option (List ℕ) → CalendarDate → Result PersonalNumberError (List ℕ)
normalise_digits none reference = err personal_number_invalid
normalise_digits (some digits) reference =
    throw_if (not (length digits == 10 || length digits == 12)) personal_number_invalid
    >> check_number (to_twelve digits reference)

-- The text is given by its code points; the result by its twelve digits.
unfoldable pub normalise_swedish_personal_number :
    List ℕ → CalendarDate → Result PersonalNumberError (List ℕ)
unfolding read_digits normalise_digits
normalise_swedish_personal_number input reference =
    normalise_digits (read_digits (strip input)) reference

pub data ExceptionCode : Type 0 where
  unknown_at_invitation data_minimization protected_personal_data_workflow : ExceptionCode
  recipient_selected_by_secure_channel other_reason : ExceptionCode

abbrev pub exception_code_index : ExceptionCode → ℕ
exception_code_index unknown_at_invitation = 0
exception_code_index data_minimization = 1
exception_code_index protected_personal_data_workflow = 2
exception_code_index recipient_selected_by_secure_channel = 3
exception_code_index other_reason = 4

pub exception_code_index-injective :
    (a b : ExceptionCode) → exception_code_index a ≡ exception_code_index b → a ≡ b
exception_code_index-injective a b h = ground arith

instance abbrev pub exception_code_eq : Eq ExceptionCode
exception_code_eq = eq_by_index exception_code_index exception_code_index-injective

abbrev pub exception_codes : List ExceptionCode
exception_codes =
    unknown_at_invitation ∷ data_minimization ∷ protected_personal_data_workflow
    ∷ recipient_selected_by_secure_channel ∷ other_reason ∷ []

pub record PersonalNumberException : Type 0 where
  pub code : ExceptionCode
  pub reason : Option String

pub record BindingRequest : Type 0 where
  pub personal_number : Option String
  pub require_personal_number_match : Bool
  pub exception : Option PersonalNumberException
  pub tenant_allows_exception : Bool
  pub actor_has_exception_permission : Bool
  pub reference_date : CalendarDate

pub data BindingDecision : Type 0 where
  strict_prebound : List ℕ → BindingDecision
  bankid_discovered : PersonalNumberException → BindingDecision

-- `reason?.trim() || undefined`
abbrev pub trimmed : Option String → Option String
trimmed none = none
trimmed (some reason) = if is_blank reason then none else some (trim reason)

abbrev pub is_too_long : Option String → Bool
is_too_long none = false
is_too_long (some reason) = ltb 2000 (utf16_length reason)

unfoldable pub decide_exception :
    BindingRequest → Option PersonalNumberException → Result PersonalNumberError BindingDecision
decide_exception request none = err personal_number_required
decide_exception request (some exception) = do
  throw_if (not request.tenant_allows_exception || not request.actor_has_exception_permission)
      exception_not_allowed
  throw_if (not (includes exception_codes exception.code)) exception_not_allowed
  throw_if (exception.code == other_reason && is_none (trimmed exception.reason))
      exception_reason_required
  throw_if (is_too_long (trimmed exception.reason)) exception_reason_invalid
  ok (bankid_discovered (record { code = exception.code; reason = trimmed exception.reason }))

unfoldable pub decide_without_number : BindingRequest → Result PersonalNumberError BindingDecision
unfolding decide_exception
decide_without_number request =
    throw_if request.require_personal_number_match personal_number_required
    >> decide_exception request request.exception

unfoldable pub decide_with_number :
    BindingRequest → String → Result PersonalNumberError BindingDecision
decide_with_number request raw = do
  throw_if (not request.require_personal_number_match || is_some request.exception)
      personal_number_invalid
  number ← normalise_swedish_personal_number (codes (trim raw)) request.reference_date
  ok (strict_prebound number)

unfoldable pub decide_identifier_binding :
    BindingRequest → Result PersonalNumberError BindingDecision
unfolding decide_without_number decide_with_number
decide_identifier_binding request = elim request.personal_number [
  | none ↦ decide_without_number request
  | some raw ↦
      if is_blank raw then decide_without_number request else decide_with_number request raw
]
