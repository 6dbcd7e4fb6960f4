-- ===== src/Prelude/Text.antt =====
-- Text of the source: native strings, with the white space that `trim` removes.
use Prim.Native.Nat.{ℕ, zero, suc, ◌+◌}
use Prim.Native.Char.{code}
use Prim.Native.String.{String, [], ◌∷◌}
use mathlib.Core.Bool.{Bool, true, false, ◌||◌, ◌&&◌}
use mathlib.Core.Option.{Option, none, some}
use mathlib.Core.List.{List}
use kommunsign.Prelude.Tests.{leb, ltb, nat_beq, if◌then◌else◌}

-- The code points of a text.
abbrev pub codes : String → List ℕ
codes [] = List.[]
codes (c ∷ s) = List.◌∷◌ (code c) (codes s)

-- `a + b`
abbrev pub append_text : String → String → String
append_text [] t = t
append_text (c ∷ s) t = c ∷ append_text s t

-- White space and line ends of ECMAScript.
abbrev pub is_space : ℕ → Bool
is_space c =
    leb 9 c && leb c 13
    || nat_beq c 32
    || nat_beq c 160
    || nat_beq c 0x1680
    || leb 0x2000 c && leb c 0x200a
    || nat_beq c 0x2028
    || nat_beq c 0x2029
    || nat_beq c 0x202f
    || nat_beq c 0x205f
    || nat_beq c 0x3000
    || nat_beq c 0xfeff

abbrev pub is_empty_text : String → Bool
is_empty_text [] = true
is_empty_text (c ∷ s) = false

unfoldable pub trim_start : String → String
trim_start [] = []
trim_start (c ∷ s) = if is_space (code c) then trim_start s else c ∷ s

unfoldable pub trim_end : String → String
trim_end [] = []
trim_end (c ∷ s) =
    let rest = trim_end s in if is_space (code c) && is_empty_text rest then [] else c ∷ rest

unfoldable pub trim : String → String
unfolding trim_start trim_end
trim s = trim_end (trim_start s)

-- `s.trim() === ''`, for the tests on grounds and reasons.
unfoldable pub is_blank : String → Bool
unfolding trim
is_blank s = is_empty_text (trim s)

-- `s.length`, in UTF-16 code units.
abbrev pub utf16_length : String → ℕ
utf16_length [] = 0
utf16_length (c ∷ s) = (if ltb (code c) 0x10000 then 1 else 2) + utf16_length s

-- An optional text that a test such as `!x` takes for missing: undefined, null or empty.
abbrev pub is_missing : Option String → Bool
is_missing none = true
is_missing (some s) = is_empty_text s

-- The order of texts in a sort without a comparator.
abbrev pub codes_le : List ℕ → List ℕ → Bool
codes_le List.[] t = true
codes_le (List.◌∷◌ a s) List.[] = false
codes_le (List.◌∷◌ a s) (List.◌∷◌ b t) =
    let rest = codes_le s t in if nat_beq a b then rest else ltb a b

-- `text.includes(part)`, on code points.
abbrev pub starts_with : List ℕ → List ℕ → Bool
starts_with List.[] t = true
starts_with (List.◌∷◌ a s) List.[] = false
starts_with (List.◌∷◌ a s) (List.◌∷◌ b t) = nat_beq a b && starts_with s t

abbrev pub includes_text : List ℕ → List ℕ → Bool
includes_text part List.[] = starts_with part List.[]
includes_text part (List.◌∷◌ b t) = starts_with part (List.◌∷◌ b t) || includes_text part t

-- `/^[0-9a-f]{64}$/`
abbrev pub is_hex_digit : ℕ → Bool
is_hex_digit c = leb 48 c && leb c 57 || leb 97 c && leb c 102

abbrev pub is_hex : ℕ → List ℕ → Bool
is_hex zero List.[] = true
is_hex zero (List.◌∷◌ c s) = false
is_hex (suc n) List.[] = false
is_hex (suc n) (List.◌∷◌ c s) = is_hex_digit c && is_hex n s

unfoldable pub is_sha256 : String → Bool
is_sha256 s = is_hex 64 (codes s)

-- `trim`, of a text that is the list of its code points.
abbrev pub trim_codes_start : List ℕ → List ℕ
trim_codes_start List.[] = List.[]
trim_codes_start (List.◌∷◌ c s) =
    let rest = trim_codes_start s in if is_space c then rest else List.◌∷◌ c s

abbrev pub push_unless_end : ℕ → List ℕ → List ℕ
push_unless_end c List.[] = if is_space c then List.[] else List.◌∷◌ c List.[]
push_unless_end c (List.◌∷◌ d s) = List.◌∷◌ c (List.◌∷◌ d s)

abbrev pub trim_codes_end : List ℕ → List ℕ
trim_codes_end List.[] = List.[]
trim_codes_end (List.◌∷◌ c s) = push_unless_end c (trim_codes_end s)

unfoldable pub trim_codes : List ℕ → List ℕ
trim_codes s = trim_codes_end (trim_codes_start s)
