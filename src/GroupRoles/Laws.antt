-- ===== src/GroupRoles/Laws.antt =====
-- What the loop over the groups grants, and when it refuses.
use kommunsign.Prelude.{
  String, ◌≡◌, refl, sym, Bool, true, false, ◌||◌, List, [], ◌∷◌, ◌++◌, arith, inl, inr, Bool-cases,
  any, all, includes, includes-append, Distinct, Distinct-push, ◌==◌, ==_iff, &&-true_iff, ◌∙◌,
  string_eq, ok, err,
}
use kommunsign.Prelude.Object.{Looked, absent, inherited, own, Property, property}
use kommunsign.GroupRoles.{grant, collect_roles}

-- The group is one of the table, and is mapped to the role.
abbrev pub gives : Looked String → String → Bool
gives absent role = false
gives inherited role = false
gives (own mapped) role = mapped == role

-- The table has nothing for the group, or a role that may be assigned.
abbrev pub permitted : List String → Looked String → Bool
permitted assignable absent = true
permitted assignable inherited = false
permitted assignable (own mapped) = includes assignable mapped

known_again :
    (roles : List String) (role r : String)
    → includes roles role ≡ true
    → includes roles r ≡ (includes roles r || role == r)
known_again roles role r known = elim (Bool-cases (role == r)) [
  | inl same ↦
      let here : includes roles r ≡ true = rw (sym ((==_iff role r).0 same)) known in rw here refl
  | inr other ↦ rw other (ground arith)
]

module _ {E : Type 0} (not_assignable : E) (assignable : List String)
    (table : List (Property String)) where
  -- What one round grants.
  record Granted (roles : List String) (mapped : Looked String) (more : List String) : Type 0 where
    pub exact : (role : String) → includes more role ≡ (includes roles role || gives mapped role)
    pub distinct : Distinct roles → Distinct more

  grant-Granted :
      (mapped : Looked String) (roles : List String)
      → permitted assignable mapped ≡ true
      → (more : List String) × (grant not_assignable assignable table mapped roles ≡ ok more)
        × Granted roles mapped more
  unfolding grant
  grant-Granted absent roles h =
      (roles, refl, record { exact = λ r. ground arith; distinct = λ d. d })
  grant-Granted inherited roles h = absurd (cc)
  grant-Granted (own role) roles h = elim (Bool-cases (includes roles role)) [
    | inl known ↦ (
      roles,
      rw (h, known) refl,
      record { exact = λ r. known_again roles role r known; distinct = λ d. d },
    )
    | inr new ↦ (
      roles ++ role ∷ [],
      rw (h, new) refl,
      record {
        exact = λ r. ground (arith, includes-append roles (role ∷ []) r);
        distinct = λ d. Distinct-push roles role new d;
      },
    )
  ]

  not_granted :
      (mapped : Looked String) (roles : List String)
      → permitted assignable mapped ≡ false
      → grant not_assignable assignable table mapped roles ≡ err not_assignable
  unfolding grant
  not_granted absent roles h = cc
  not_granted inherited roles h = refl
  not_granted (own role) roles h = rw h refl

  abbrev pub all_permitted : List String → Bool
  all_permitted = all (λ group. permitted assignable (property table group))

  -- Some group gives the role.
  abbrev pub given_by : List String → String → Bool
  given_by groups role = any (λ group. gives (property table group) role) groups

  pub collected :
      (groups roles : List String)
      → all_permitted groups ≡ true
      → (out : List String) × (collect_roles not_assignable assignable table groups roles ≡ ok out)
        × ((role : String) → includes out role ≡ (includes roles role || given_by groups role))
        × (Distinct roles → Distinct out)
  unfolding collect_roles
  collected [] roles h = (roles, refl, λ r. ground arith, λ d. d)
  collected (g ∷ gs) roles h =
      let (first, later) = (&&-true_iff _ (all_permitted gs)).0 h in
      let (more, ran, granted) = grant-Granted (property table g) roles first in
      let (out, rest, exact, distinct) = collected gs more later in
      (
        out,
        rw ran rest,
        λ r. exact r ∙ ground (arith, granted.exact r),
        λ d. distinct (granted.distinct d),
      )

  pub refused :
      (groups roles : List String)
      → all_permitted groups ≡ false
      → collect_roles not_assignable assignable table groups roles ≡ err not_assignable
  unfolding collect_roles
  refused [] roles h = cc
  refused (g ∷ gs) roles h = elim (Bool-cases (permitted assignable (property table g))) [
    | inl fine ↦
        let (more, ran, granted) = grant-Granted (property table g) roles fine in
        rw ran (refused gs more (rw fine at h))
    | inr bad ↦ rw (not_granted (property table g) roles bad) refl
  ]
