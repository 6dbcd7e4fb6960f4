-- ===== src/Scim/Filter.antt =====
-- packages/scim/src/index.ts: `parseScimFilter`, `matchesScimFilter`.
pub mod Laws
use Prim.Native.Char.{Char, code}
use kommunsign.Prelude.{
  ℕ, ◌+◌, String, Bool, true, false, not, ◌&&◌, ◌||◌, Option, none, some, List, [], ◌∷◌, ltb, leb,
  nat_beq, ◌==◌, string_eq, includes, if◌then◌else◌, Result, ok, err, ◌>>=◌, ◌>>◌, throw_if,
}
use kommunsign.Prelude.Text.{trim_start, is_space, is_blank, is_empty_text}
use kommunsign.Scim.Types.{ScimError, scim_error, invalid_filter, ScimUser}

pub data FilterAttribute : Type 0 where
  by_user_name by_external_id by_active : FilterAttribute

pub record ScimFilter : Type 0 where
  pub attribute : FilterAttribute
  pub value : String

-- A letter without its case, as the flag `i` compares it; outside of ASCII no character is the
-- same as a letter of the words below.
abbrev pub fold_case : ℕ → ℕ
fold_case c = if leb 65 c && leb c 90 then c + 32 else c

-- A part of the text that a pattern took, and the rest.
pub record Took : Type 0 where
  pub part : String
  pub rest : String

abbrev pub push : Char → Option Took → Option Took
push c none = none
push c (some took) = some (record took { part = String.◌∷◌ c took.part })

-- A word in any case.
unfoldable pub take_word : String → String → Option Took
take_word String.[] s = some (record { part = ""; rest = s })
take_word (String.◌∷◌ k word) String.[] = none
take_word (String.◌∷◌ k word) (String.◌∷◌ c s) =
    let more = push c (take_word word s) in
    if nat_beq (fold_case (code c)) (fold_case (code k)) then more else none

-- `\s+`
unfoldable pub take_spaces : String → Option String
take_spaces String.[] = none
take_spaces (String.◌∷◌ c s) = if is_space (code c) then some (trim_start s) else none

-- `([^"\\]*)"`
unfoldable pub take_quoted : String → Option Took
take_quoted String.[] = none
take_quoted (String.◌∷◌ c s) =
    let more = push c (take_quoted s) in
    if nat_beq (code c) b'"'
    then some (record { part = ""; rest = s })
    else if nat_beq (code c) b'\\'
    then none
    else more

-- `(userName|externalId|active)`, of which at most one fits.
abbrev pub take_attribute : String → Result ScimError (FilterAttribute × String)
take_attribute s = elim (take_word "userName" s) [
  | some took ↦ ok (by_user_name, took.rest)
  | none ↦ elim (take_word "externalId" s) [
    | some took ↦ ok (by_external_id, took.rest)
    | none ↦ elim (take_word "active" s) [
      | some took ↦ ok (by_active, took.rest)
      | none ↦ err (scim_error invalid_filter)
    ]
  ]
]

abbrev pub needed {ℓ} : {A : Type ℓ} → Option A → Result ScimError A
needed none = err (scim_error invalid_filter)
needed (some a) = ok a

abbrev pub or_take : Option Took → Option Took → Option Took
or_take (some took) other = some took
or_take none other = other

-- `(true|false)`
abbrev pub take_boolean : String → Option Took
take_boolean s = or_take (take_word "true" s) (take_word "false" s)

-- `(?:"([^"\\]*)"|(true|false))`
unfoldable pub take_value : String → Option Took
unfolding take_word take_quoted
take_value String.[] = none
take_value (String.◌∷◌ c s) =
    if nat_beq (code c) b'"' then take_quoted s else take_boolean (String.◌∷◌ c s)

-- The whole expression.
unfoldable pub match_filter : String → Result ScimError ScimFilter
unfolding take_word take_spaces take_value
match_filter s = do
  (attribute, behind_attribute) ← take_attribute (trim_start s)
  at_operator ← needed (take_spaces behind_attribute)
  operator ← needed (take_word "eq" at_operator)
  at_value ← needed (take_spaces operator.rest)
  value ← needed (take_value at_value)
  throw_if (not (is_empty_text (trim_start value.rest))) (scim_error invalid_filter)
  ok (record { attribute = attribute; value = value.part })

module _ (lower : String → String) where
  abbrev pub is_boolean : String → Bool
  is_boolean value = includes ("true" ∷ "false" ∷ []) (lower value)

  abbrev pub check_filter : FilterAttribute → String → Result ScimError (Unit {0})
  check_filter by_active value = throw_if (not (is_boolean value)) (scim_error invalid_filter)
  check_filter other value = throw_if (is_empty_text value) (scim_error invalid_filter)

  unfoldable pub parse_scim_filter : Option String → Result ScimError (Option ScimFilter)
  parse_scim_filter none = ok none
  parse_scim_filter (some filter) = if is_blank filter then ok none else do
    matched ← match_filter filter
    check_filter matched.attribute matched.value
    ok (some matched)

  abbrev pub matches_attribute : FilterAttribute → ScimUser → String → Bool
  matches_attribute by_user_name user value = lower user.user_name == lower value
  matches_attribute by_external_id user value = elim user.external_id [
    | none ↦ false
    | some id ↦ id == value
  ]
  matches_attribute by_active user value =
      if user.active then lower value == "true" else not (lower value == "true")

  unfoldable pub matches_scim_filter : ScimUser → Option ScimFilter → Bool
  matches_scim_filter user none = true
  matches_scim_filter user (some filter) = matches_attribute filter.attribute user filter.value
