-- ===== src/Crypto/CanonicalJson.antt =====
-- packages/crypto/src/canonical-json.ts. A text is the list of its UTF-16 code units.
pub mod Laws
use kommunsign.Prelude.{
  ℕ, ◌+◌, ◌/◌, ◌%◌, Bool, true, false, not, ◌&&◌, ◌||◌, Option, none, some, List, [], ◌∷◌, ◌++◌,
  ltb, leb, nat_beq, if◌then◌else◌, Result, ok, err, ◌>>=◌,
}
use kommunsign.Prelude.Text.{codes, codes_le}
use kommunsign.Prelude.Sort.{sort}
use kommunsign.Crypto.Hex.{hex_digit}

-- A finite number other than -0 is given by what `JSON.stringify` writes of it. `undefined` is not of
-- the type, and is looked at all the same.
pub data NumberValue : Type 0 where
  not_finite minus_zero : NumberValue
  finite : List ℕ → NumberValue

mutual
  pub data CanonicalJsonValue : Type 0 where
    undefined null : CanonicalJsonValue
    boolean : Bool → CanonicalJsonValue
    number : NumberValue → CanonicalJsonValue
    text : List ℕ → CanonicalJsonValue
    array : Items → CanonicalJsonValue
    object : Fields → CanonicalJsonValue

  pub data Items : Type 0 where
    nil : Items
    cons : CanonicalJsonValue → Items → Items

  -- In the order of `Object.keys`, each key once.
  pub data Fields : Type 0 where
    end : Fields
    field : List ℕ → CanonicalJsonValue → Fields → Fields

pub data JsonError : Type 0 where
  non_finite_number type_error : JsonError
  undefined_at : List ℕ → JsonError

-- `\u` and four digits.
abbrev pub unicode_escape : ℕ → List ℕ
unicode_escape c =
    b'\\'
    ∷ b'u'
    ∷ hex_digit (c / 4096)
    ∷ hex_digit (c / 256 % 16)
    ∷ hex_digit (c / 16 % 16)
    ∷ hex_digit (c % 16)
    ∷ []

abbrev pub is_surrogate : ℕ → Bool
is_surrogate c = leb 0xd800 c && leb c 0xdfff

abbrev pub is_pair : ℕ → ℕ → Bool
is_pair c d = leb 0xd800 c && leb c 0xdbff && leb 0xdc00 d && leb d 0xdfff

-- A unit that is no half of a pair, as `JSON.stringify` writes it.
unfoldable pub escape_unit : ℕ → List ℕ
escape_unit c =
    if nat_beq c 34
    then b'\\' ∷ 34 ∷ []
    else if nat_beq c 92
    then b'\\' ∷ 92 ∷ []
    else if nat_beq c 8
    then b'\\' ∷ b'b' ∷ []
    else if nat_beq c 9
    then b'\\' ∷ b't' ∷ []
    else if nat_beq c 10
    then b'\\' ∷ b'n' ∷ []
    else if nat_beq c 12
    then b'\\' ∷ b'f' ∷ []
    else if nat_beq c 13
    then b'\\' ∷ b'r' ∷ []
    else if ltb c 32 || is_surrogate c
    then unicode_escape c
    else c ∷ []

unfoldable pub escape_units : List ℕ → List ℕ
unfolding escape_unit
escape_units [] = []
escape_units (c ∷ []) = escape_unit c
escape_units (c ∷ d ∷ s) = elim (is_pair c d) [
  | true ↦ c ∷ d ∷ escape_units s
  | false ↦ escape_unit c ++ escape_units (d ∷ s)
]

-- `JSON.stringify` of a text.
abbrev pub quote : List ℕ → List ℕ
quote s = 34 ∷ (escape_units s ++ 34 ∷ [])

abbrev pub encode_number : NumberValue → Result JsonError (List ℕ)
encode_number not_finite = err non_finite_number
encode_number minus_zero = ok (codes "0")
encode_number (finite spelling) = ok spelling

-- `parts.join(',')`
unfoldable pub join_commas : List (List ℕ) → List ℕ
join_commas [] = []
join_commas (part ∷ []) = part
join_commas (part ∷ next ∷ parts) = part ++ b',' ∷ join_commas (next ∷ parts)

-- One key with the text of its entry, or the error that the loop throws when it comes to it.
pub record Entry : Type 0 where
  pub key : List ℕ
  pub written : Result JsonError (List ℕ)

abbrev pub entry_le : Entry → Entry → Bool
entry_le a b = codes_le a.key b.key

unfoldable pub collect_entries : List Entry → Result JsonError (List (List ℕ))
collect_entries [] = ok []
collect_entries (entry ∷ entries) = do
  part ← entry.written
  parts ← collect_entries entries
  ok (part ∷ parts)

abbrev pub write_entry : List ℕ → Result JsonError (List ℕ) → Result JsonError (List ℕ)
write_entry key value = do written ← value; ok (quote key ++ b':' ∷ written)

abbrev pub is_undefined : CanonicalJsonValue → Bool
is_undefined undefined = true
is_undefined null = false
is_undefined (boolean b) = false
is_undefined (number n) = false
is_undefined (text s) = false
is_undefined (array items) = false
is_undefined (object fields) = false

-- The body of the `map` over the keys: it looks at the value's spelling only behind its test.
abbrev pub write_field : Bool → List ℕ → Result JsonError (List ℕ) → Result JsonError (List ℕ)
write_field true key value = err (undefined_at key)
write_field false key value = write_entry key value

unfoldable mutual
  unfolding escape_units join_commas collect_entries

  pub encode : CanonicalJsonValue → Result JsonError (List ℕ)
  encode undefined = err type_error
  encode null = ok (codes "null")
  encode (boolean true) = ok (codes "true")
  encode (boolean false) = ok (codes "false")
  encode (number n) = encode_number n
  encode (text s) = ok (quote s)
  encode (array items) = do parts ← encode_items items; ok (b'[' ∷ (join_commas parts ++ b']' ∷ []))
  encode (object fields) = do
    parts ← collect_entries (sort entry_le (entries_of fields))
    ok (b'{' ∷ (join_commas parts ++ b'}' ∷ []))

  pub encode_items : Items → Result JsonError (List (List ℕ))
  encode_items nil = ok []
  encode_items (cons item items) = do
    part ← encode item
    parts ← encode_items items
    ok (part ∷ parts)

  pub entries_of : Fields → List Entry
  entries_of end = []
  entries_of (field key value fields) =
      record { key = key; written = write_field (is_undefined value) key (encode value) }
      ∷ entries_of fields

unfoldable pub canonical_json : CanonicalJsonValue → Result JsonError (List ℕ)
unfolding encode
canonical_json value = encode value
