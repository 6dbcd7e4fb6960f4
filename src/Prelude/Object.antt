-- ===== src/Prelude/Object.antt =====
-- A plain object of JavaScript that is used as a dictionary: a name that it does not have is looked
-- up in `Object.prototype`.
use Prim.Native.String.{String}
use mathlib.Core.Path.{◌≡◌}
use mathlib.Core.List.{List, [], ◌∷◌}
use kommunsign.Prelude.Tests.{if◌then◌else◌}
use kommunsign.Prelude.Equality.{◌==◌, string_eq}
use kommunsign.Prelude.Lists.{includes}

-- `inherited` is a member of `Object.prototype`: a function, or for `__proto__` the object itself.
pub data Looked (V : Type 0) : Type 0 where
  absent : Looked V
  inherited : Looked V
  own : V → Looked V

pub record Property (V : Type 0) : Type 0 where
  pub name : String
  pub value : V

abbrev pub prototype_members : List String
prototype_members =
    "constructor" ∷ "hasOwnProperty" ∷ "isPrototypeOf" ∷ "propertyIsEnumerable" ∷ "toLocaleString"
    ∷ "toString" ∷ "valueOf" ∷ "__defineGetter__" ∷ "__defineSetter__" ∷ "__lookupGetter__"
    ∷ "__lookupSetter__" ∷ "__proto__" ∷ []

module _ {V : Type 0} where
  -- `object[name]`
  unfoldable pub property : List (Property V) → String → Looked V
  property [] name = if includes prototype_members name then inherited else absent
  property (p ∷ ps) name =
      let rest = property ps name in if p.name == name then own p.value else rest

pub own_injective : {V : Type 0} {a b : V} → ◌≡◌ {A = Looked V} (own a) (own b) → a ≡ b
own_injective h = cc
