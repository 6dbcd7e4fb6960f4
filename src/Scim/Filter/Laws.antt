-- ===== src/Scim/Filter/Laws.antt =====
-- What a filter that is let through can hold, and that a plain filter is read as it was written.
use Prim.Native.Char.{Char, code}
use kommunsign.Prelude.{
  ℕ, ◌≤◌, String, ◌≡◌, refl, sym, ap, subst, true, false, not, Option, none, some, arith, inl, inr,
  Bool-cases, nat_beq, string_eq, Result, ok, ◌>>=◌, ◌>>◌, throw_if, >>=-eq-ok, >>-eq-ok,
  throw_if-eq-ok, ok_injective,
}
use kommunsign.Prelude.Text.{append_text, trim, trim_start, trim_end, is_blank, is_empty_text}
use kommunsign.Scim.Types.{ScimError, scim_error, invalid_filter}
use kommunsign.Scim.Filter.{
  FilterAttribute, by_user_name, by_external_id, by_active, ScimFilter, fold_case, Took, push,
  take_word, take_spaces, take_quoted, take_attribute, needed, or_take, take_value, match_filter,
  is_boolean, check_filter, parse_scim_filter,
}

-- No quotation mark and no backslash.
abbrev pub IsPlain : String → Type 0
IsPlain String.[] = Unit
IsPlain (String.◌∷◌ c s) =
    (nat_beq (code c) b'"' ≡ false) × (nat_beq (code c) b'\\' ≡ false) × IsPlain s

-- A word of letters.
abbrev OfLetters : String → Type 0
OfLetters String.[] = Unit
OfLetters (String.◌∷◌ c s) = (97 ≤ fold_case (code c)) × OfLetters s

pushed :
    (c : Char) (took : Option Took) (t : Took)
    → push c took ≡ some t
    → (inner : Took) × (took ≡ some inner) × (t.part ≡ String.◌∷◌ c inner.part)
pushed c none t h = absurd (cc)
pushed c (some inner) t h =
    let same : record inner { part = String.◌∷◌ c inner.part } ≡ t = cc in
    (inner, refl, ap (λ (k : Took). k.part) (sym same))

IsPlain-cons :
    (c : Char) (inner part : String)
    → part ≡ String.◌∷◌ c inner
    → nat_beq (code c) b'"' ≡ false
    → nat_beq (code c) b'\\' ≡ false
    → IsPlain inner
    → IsPlain part
IsPlain-cons c inner part e q b h = rw e (q, b, h)

take_quoted-IsPlain : (s : String) (t : Took) → take_quoted s ≡ some t → IsPlain t.part
unfolding take_quoted
take_quoted-IsPlain String.[] t h = absurd (cc)
take_quoted-IsPlain (String.◌∷◌ c s) t h = elim (Bool-cases (nat_beq (code c) b'"')) [
  | inl quote ↦
      let e : ◌≡◌ {A = Option Took} (some (record { part = ""; rest = s })) (some t) =
        rw quote at h in
      let same : record { part = ""; rest = s } ≡ t = cc in
      rw (ap (λ (k : Took). k.part) (sym same)) tt
  | inr plain ↦ elim (Bool-cases (nat_beq (code c) b'\\')) [
    | inl slash ↦
        absurd (let e : ◌≡◌ {A = Option Took} none (some t) = rw (plain, slash) at h in cc)
    | inr fine ↦
        let e : push c (take_quoted s) ≡ some t = rw (plain, fine) at h in
        let (inner, ran, part) = pushed c (take_quoted s) t e in
        IsPlain-cons c inner.part t.part part plain fine (take_quoted-IsPlain s inner ran)
  ]
]

letter_plain :
    (c k : ℕ)
    → 97 ≤ fold_case k
    → nat_beq (fold_case c) (fold_case k) ≡ true
    → (nat_beq c b'"' ≡ false) × (nat_beq c b'\\' ≡ false)
letter_plain c k h e = ground arith

take_word-IsPlain :
    (word s : String) (t : Took) → OfLetters word → take_word word s ≡ some t → IsPlain t.part
unfolding take_word
take_word-IsPlain String.[] s t w h =
    let same : record { part = ""; rest = s } ≡ t = cc in
    rw (ap (λ (k : Took). k.part) (sym same)) tt
take_word-IsPlain (String.◌∷◌ k word) String.[] t w h = absurd (cc)
take_word-IsPlain (String.◌∷◌ k word) (String.◌∷◌ c s) t w h =
    elim (Bool-cases (nat_beq (fold_case (code c)) (fold_case (code k)))) [
      | inr other ↦ absurd (let e : ◌≡◌ {A = Option Took} none (some t) = rw other at h in cc)
      | inl same ↦
          let e : push c (take_word word s) ≡ some t = rw same at h in
          let (inner, ran, part) = pushed c (take_word word s) t e in
          let (quote, slash) = letter_plain (code c) (code k) w.0 same in
          IsPlain-cons c inner.part t.part part quote slash (take_word-IsPlain word s inner w.1 ran)
    ]

or_take-IsPlain :
    (a b : Option Took) (t : Took)
    → ((u : Took) → a ≡ some u → IsPlain u.part)
    → ((u : Took) → b ≡ some u → IsPlain u.part)
    → or_take a b ≡ some t
    → IsPlain t.part
or_take-IsPlain none b t left right h = right t h
or_take-IsPlain (some u) b t left right h = left t h

take_value-IsPlain : (s : String) (t : Took) → take_value s ≡ some t → IsPlain t.part
unfolding take_value
take_value-IsPlain String.[] t h = absurd (cc)
take_value-IsPlain (String.◌∷◌ c s) t h = elim (Bool-cases (nat_beq (code c) b'"')) [
  | inl quote ↦ take_quoted-IsPlain s t (rw quote at h)
  | inr other ↦
      or_take-IsPlain (take_word "true" (String.◌∷◌ c s)) (take_word "false" (String.◌∷◌ c s)) t
        (λ u e. take_word-IsPlain "true" (String.◌∷◌ c s) u (omega arith) e)
        (λ u e. take_word-IsPlain "false" (String.◌∷◌ c s) u (omega arith) e) (rw other at h)
]

needed-ok {ℓ} : {A : Type ℓ} (o : Option A) (a : A) → needed o ≡ ok a → o ≡ some a
needed-ok none a h = absurd (cc)
needed-ok (some b) a h = ap some (ok_injective h)

match_filter-IsPlain : (s : String) (f : ScimFilter) → match_filter s ≡ ok f → IsPlain f.value
unfolding match_filter
match_filter-IsPlain s f h =
    let (read, attribute, h1) = >>=-eq-ok (take_attribute (trim_start s)) _ h in
    let (at_operator, spaces, h2) = >>=-eq-ok (needed (take_spaces read.1)) _ h1 in
    let (operator, word, h3) = >>=-eq-ok (needed (take_word "eq" at_operator)) _ h2 in
    let (at_value, more, h4) = >>=-eq-ok (needed (take_spaces operator.rest)) _ h3 in
    let (value, ran, h5) = >>=-eq-ok (needed (take_value at_value)) _ h4 in
    let (ended, built) =
      >>-eq-ok (throw_if (not (is_empty_text (trim_start value.rest))) (scim_error invalid_filter))
        _ h5 in
    subst (λ (g : ScimFilter). IsPlain g.value) (ok_injective built)
      (take_value-IsPlain at_value value (needed-ok (take_value at_value) value ran))

module _ (lower : String → String) where
  -- What each attribute may be compared with.
  abbrev pub Fits : FilterAttribute → String → Type 0
  Fits by_active value = is_boolean lower value ≡ true
  Fits by_user_name value = is_empty_text value ≡ false
  Fits by_external_id value = is_empty_text value ≡ false

  check_filter-Fits :
      (attribute : FilterAttribute) (value : String)
      → check_filter lower attribute value ≡ ok tt
      → Fits attribute value
  check_filter-Fits by_active value h =
      ground (arith, throw_if-eq-ok (not (is_boolean lower value)) _ h)
  check_filter-Fits by_user_name value h = throw_if-eq-ok (is_empty_text value) _ h
  check_filter-Fits by_external_id value h = throw_if-eq-ok (is_empty_text value) _ h

  -- The value of a filter that is let through holds no quotation mark and no backslash; it is a
  -- Boolean where it is compared with `active`, and is not empty otherwise.
  pub filter_sound :
      (filter : String) (f : ScimFilter)
      → parse_scim_filter lower (some filter) ≡ ok (some f)
      → IsPlain f.value × Fits f.attribute f.value
  unfolding parse_scim_filter
  filter_sound filter f h = elim (Bool-cases (is_blank filter)) [
    | inl blank ↦ absurd (
        let e : ◌≡◌ {A = Result ScimError (Option ScimFilter)} (ok none) (ok (some f)) =
          rw blank at h in
        cc)
    | inr given ↦
        let e : (do
          matched ← match_filter filter
          check_filter lower matched.attribute matched.value
          ok (some matched))
            ≡ ok (some f) =
          rw given at h in
        let (matched, ran, rest) = >>=-eq-ok (match_filter filter) _ e in
        let (checked, built) =
          >>-eq-ok (check_filter lower matched.attribute matched.value) _ rest in
        let same : matched ≡ f = cc in
        subst (λ (g : ScimFilter). IsPlain g.value × Fits g.attribute g.value) same
          (
            match_filter-IsPlain filter matched ran,
            check_filter-Fits matched.attribute matched.value checked,
          )
  ]

  -- How a directory writes the filter.
  abbrev pub print_filter : FilterAttribute → String → String
  print_filter by_user_name value = append_text "userName eq \"" (append_text value "\"")
  print_filter by_external_id value = append_text "externalId eq \"" (append_text value "\"")
  print_filter by_active value = append_text "active eq \"" (append_text value "\"")

  quoted_whole :
      (value : String)
      → IsPlain value
      → take_quoted (append_text value "\"") ≡ some (record { part = value; rest = "" })
  unfolding take_quoted
  quoted_whole String.[] h = refl
  quoted_whole (String.◌∷◌ c s) h = rw (h.0, h.1, quoted_whole s h.2) refl

  matched_whole :
      (attribute : FilterAttribute) (value : String)
      → IsPlain value
      → match_filter (print_filter attribute value)
        ≡ ok (record { attribute = attribute; value = value })
  unfolding match_filter take_word take_spaces take_value trim_start
  matched_whole by_user_name value h = rw (quoted_whole value h) refl
  matched_whole by_external_id value h = rw (quoted_whole value h) refl
  matched_whole by_active value h = rw (quoted_whole value h) refl

  not_blank :
      (attribute : FilterAttribute) (value : String)
      → is_blank (print_filter attribute value) ≡ false
  unfolding is_blank trim trim_start trim_end
  not_blank by_user_name value = refl
  not_blank by_external_id value = refl
  not_blank by_active value = refl

  Fits-check :
      (attribute : FilterAttribute) (value : String)
      → Fits attribute value
      → check_filter lower attribute value ≡ ok tt
  Fits-check by_active value h = rw h refl
  Fits-check by_user_name value h = rw h refl
  Fits-check by_external_id value h = rw h refl

  -- A filter that is written with a value that fits, without quotation marks and backslashes, is
  -- read as the same attribute and the same value.
  pub filter_roundtrip :
      (attribute : FilterAttribute) (value : String)
      → IsPlain value
      → Fits attribute value
      → parse_scim_filter lower (some (print_filter attribute value))
        ≡ ok (some (record { attribute = attribute; value = value }))
  unfolding parse_scim_filter
  filter_roundtrip attribute value plain fits =
      rw
        (
          not_blank attribute value,
          matched_whole attribute value plain,
          Fits-check attribute value fits,
        )
        refl
