-- ===== src/Prelude/Throwing.antt =====
-- Code that throws: a result with an error of the type that the component names.
use mathlib.Core.Path.{◌≡◌, refl}
use mathlib.Core.Bool.{Bool, true, false}
use mathlib.Core.Logic.{◌⊎◌, inl, inr}
use mathlib.Core.List.{List, [], ◌∷◌}
use kommunsign.Prelude.Lists.{All}

pub data Result {ℓ} (E : Type 0) (A : Type ℓ) : Type ℓ where
  ok : A → Result E A
  err : E → Result E A

infixl 5 ◌>>=◌ ◌>>◌
abbrev pub ◌>>=◌ {ℓ κ} :
    {E : Type 0} {A : Type ℓ} {B : Type κ} → Result E A → (A → Result E B) → Result E B
err thrown >>= rest = err thrown
ok value >>= rest = rest value

-- `if (test) throw e`.
abbrev pub throw_if : {E : Type 0} → Bool → E → Result E (Unit {0})
throw_if true thrown = err thrown
throw_if false thrown = ok tt

-- A statement that may throw, and the statements behind it.
abbrev pub ◌>>◌ {ℓ} : {E : Type 0} {B : Type ℓ} → Result E (Unit {0}) → Result E B → Result E B
first >> rest = first >>= λ done. rest

-- A call of code with another error type.
abbrev pub map_err {ℓ} : {E F : Type 0} {A : Type ℓ} → (E → F) → Result E A → Result F A
map_err f (ok a) = ok a
map_err f (err e) = err (f e)

-- A `for` loop whose body may throw.
abbrev pub for_each {ℓ} :
    {E : Type 0} {A : Type ℓ} → List A → (A → Result E (Unit {0})) → Result E (Unit {0})
for_each [] body = ok tt
for_each (x ∷ xs) body = body x >> for_each xs body

pub Result-cases {ℓ} :
    {E : Type 0} {A : Type ℓ} (r : Result E A) → ((a : A) × (r ≡ ok a)) ⊎ ((e : E) × (r ≡ err e))
Result-cases (ok a) = inl (a, refl)
Result-cases (err e) = inr (e, refl)

-- A chain that gives a value gave one at each of its parts.
pub >>=-eq-ok {ℓ κ} :
    {E : Type 0} {A : Type ℓ} {B : Type κ} (first : Result E A) (rest : A → Result E B) {last : B}
    → (first >>= rest) ≡ ok last
    → (value : A) × (first ≡ ok value) × (rest value ≡ ok last)
>>=-eq-ok (err thrown) rest given = cc
>>=-eq-ok (ok value) rest given = (value, refl, given)

pub >>-eq-ok {ℓ} :
    {E : Type 0} {B : Type ℓ} (first : Result E (Unit {0})) (rest : Result E B) {last : B}
    → (first >> rest) ≡ ok last
    → (first ≡ ok tt) × (rest ≡ ok last)
>>-eq-ok (err thrown) rest given = cc
>>-eq-ok (ok tt) rest given = (refl, given)

pub throw_if-eq-ok : {E : Type 0} (b : Bool) (e : E) → throw_if b e ≡ ok tt → b ≡ false
throw_if-eq-ok true e h = cc
throw_if-eq-ok false e h = refl

-- A `for` loop that did not throw ran its body on every element.
pub for_each-All {ℓ} :
    {E : Type 0} {A : Type ℓ} (xs : List A) (body : A → Result E (Unit {0}))
    → for_each xs body ≡ ok tt
    → All (λ x. body x ≡ ok tt) xs
for_each-All [] body h = tt
for_each-All (x ∷ xs) body h =
    let (here, later) = >>-eq-ok (body x) (for_each xs body) h in (here, for_each-All xs body later)

pub for_each-ok {ℓ} :
    {E : Type 0} {A : Type ℓ} (xs : List A) (body : A → Result E (Unit {0}))
    → All (λ x. body x ≡ ok tt) xs
    → for_each xs body ≡ ok tt
for_each-ok [] body h = refl
for_each-ok (x ∷ xs) body h = rw h.0 (for_each-ok xs body h.1)

pub ok_injective {ℓ} :
    {E : Type 0} {A : Type ℓ} {a b : A} → ◌≡◌ {A = Result E A} (ok a) (ok b) → a ≡ b
ok_injective h = cc
