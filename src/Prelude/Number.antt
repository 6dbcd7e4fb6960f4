-- ===== src/Prelude/Number.antt =====
-- JavaScript numbers as far as the components look at them, and instants in time.
use Prim.Native.Nat.{ℕ}
use mathlib.Core.Bool.{Bool, false}
use mathlib.Core.Option.{Option, none, some}
use kommunsign.Prelude.Tests.{leb, ltb, if◌then◌else◌}

-- `negative n` is -(n + 1). `other` is NaN, an infinity or a number with a fraction.
pub data Number : Type 0 where
  whole : ℕ → Number
  negative : ℕ → Number
  other : Number

-- 2^53 - 1
abbrev pub max_safe_integer : ℕ
max_safe_integer = 9007199254740991

abbrev pub is_safe_integer : Number → Bool
is_safe_integer (whole n) = leb n max_safe_integer
is_safe_integer (negative n) = ltb n max_safe_integer
is_safe_integer other = false

-- A safe integer that is at least `least`: the source's `x < least || !Number.isSafeInteger(x)`,
-- negated. Its order of the two tests does not matter, since both lead to the same error.
abbrev pub is_safe_from : ℕ → Number → Bool
is_safe_from least (whole n) = if leb least n then leb n max_safe_integer else false
is_safe_from least (negative n) = false
is_safe_from least other = false

-- The number, where it is known to be a natural number.
abbrev pub to_ℕ : Number → ℕ
to_ℕ (whole n) = n
to_ℕ (negative n) = 0
to_ℕ other = 0

-- A text that holds a time, as `Date.parse` reads it: milliseconds since 1970, or NaN.
pub data IsoDateTime : Type 0 where
  unparsable : IsoDateTime
  instant : ℕ → IsoDateTime

-- `Date.parse(t) > now`, `<= now`, `< now`; a comparison with NaN is false.
abbrev pub is_after : IsoDateTime → ℕ → Bool
is_after unparsable now = false
is_after (instant t) now = ltb now t

abbrev pub is_at_most : IsoDateTime → ℕ → Bool
is_at_most unparsable now = false
is_at_most (instant t) now = leb t now

abbrev pub is_before : IsoDateTime → ℕ → Bool
is_before unparsable now = false
is_before (instant t) now = ltb t now

-- The last instant of a `Date`; `toISOString` throws a RangeError behind it.
abbrev pub max_date : ℕ
max_date = 8640000000000000

abbrev pub ms_per_day : ℕ
ms_per_day = 86400000

-- `new Date(t).toISOString()`
abbrev pub to_iso_string : ℕ → Option IsoDateTime
to_iso_string t = if leb t max_date then some (instant t) else none
