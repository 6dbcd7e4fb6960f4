-- ===== src/KeyRotation/BlindIndex.antt =====
-- Blind indexes: which versions a lookup spans, and which indexes must go.
use kommunsign.Prelude.{
  ℕ, ◌≡◌, refl, sym, ap, ◌∙◌, ◌↔◌, inl, inr, Bool, true, false, ◌&&◌, List, [], ◌∷◌, map, arith, ok,
  leb, Bool-cases, ◌==◌, ◌!=◌, ==_iff, ==-self, nat_eq, includes, filter, filter-eq-nil_iff, length,
  All, unique, subst,
}
use kommunsign.Prelude.Sort.{sort, includes-sort, sort-IsSorted, IsSorted}
use kommunsign.Prelude.Unique.{includes-unique}
use kommunsign.KeyRotation.{
  BlindIndexEntry, plan_blind_index_rotation, assert_no_compromised_index_remains,
}

abbrev pub versions_of : List BlindIndexEntry → List ℕ
versions_of entries = map (λ (entry : BlindIndexEntry). entry.key_version) entries

includes-filter :
    (p : ℕ → Bool) (xs : List ℕ) (a : ℕ) → includes (filter p xs) a ≡ (includes xs a && p a)
includes-filter p [] a = refl
includes-filter p (x ∷ xs) a = elim (Bool-cases (x == a)) [
  | inl same ↦
      let e : x ≡ a = (==_iff x a).0 same in
      let pe : p x ≡ p a = ap p e in ground (arith, same, pe, includes-filter p xs a)
  | inr other ↦ ground (arith, other, includes-filter p xs a)
]

present :
    (entries : List BlindIndexEntry) (v : ℕ)
    → includes (sort leb (unique (versions_of entries))) v ≡ includes (versions_of entries) v
present entries v =
    includes-sort leb (unique (versions_of entries)) v ∙ includes-unique (versions_of entries) v

-- Lookups span exactly the versions that are present, in ascending order, and exactly the
-- compromised ones among them must be overwritten, the active version left out.
pub plan_sound :
    (entries : List BlindIndexEntry) (compromised : List ℕ) (active : ℕ) (v : ℕ)
    → let plan = plan_blind_index_rotation entries compromised active in
      (includes plan.lookup_versions v ≡ includes (versions_of entries) v)
      × IsSorted leb plan.lookup_versions
      × (includes plan.must_overwrite v
          ≡ (includes (versions_of entries) v && (includes compromised v && v != active)))
unfolding plan_blind_index_rotation
plan_sound entries compromised active v = (
  present entries v,
  sort-IsSorted leb (λ x y z p q. ground arith) (λ x y p. ground arith)
      (unique (versions_of entries)),
  includes-filter (λ w. includes compromised w && w != active)
        (sort leb (unique (versions_of entries))) v
      ∙ ap (λ b. b && (includes compromised v && v != active)) (present entries v),
)

remains_iff :
    (entries : List BlindIndexEntry) (compromised : List ℕ)
    → (assert_no_compromised_index_remains entries compromised ≡ ok tt)
      ↔ All (λ e. includes compromised e.key_version ≡ false) entries
unfolding assert_no_compromised_index_remains
remains_iff entries compromised =
    let hit = λ (e : BlindIndexEntry). includes compromised e.key_version in
    let rule = filter-eq-nil_iff hit entries in
    (
      λ h. rule.0 (empty_of_length (filter hit entries) (ground arith)),
      λ a. ground (arith, rule.1 a),
    )
  where
    empty_of_length : (es : List BlindIndexEntry) → length es ≡ 0 → es ≡ []
    empty_of_length [] h = refl
    empty_of_length (e ∷ es) h = absurd (omega arith)

nil_of_none : (xs : List ℕ) → ((v : ℕ) → includes xs v ≡ false) → xs ≡ []
nil_of_none [] h = refl
nil_of_none (x ∷ xs) h = absurd (ground (arith, h x))

module _ (compromised : List ℕ) where
  clean_version :
      (es : List BlindIndexEntry) (v : ℕ)
      → All (λ e. includes compromised e.key_version ≡ false) es
      → includes (versions_of es) v ≡ true
      → includes compromised v ≡ false
  clean_version [] v a m = cc
  clean_version (e ∷ es) v a m = elim (Bool-cases (e.key_version == v)) [
    | inl same ↦ subst (λ w. includes compromised w ≡ false) ((==_iff e.key_version v).0 same) a.0
    | inr other ↦ clean_version es v a.1 (ground (arith, m, other))
  ]

  clean_of_active :
      (active v : ℕ)
      → includes compromised active ≡ false
      → (v == active) ≡ true
      → includes compromised v ≡ false
  clean_of_active active v h e =
      subst (λ w. includes compromised w ≡ false) (sym ((==_iff v active).0 e)) h

  clean_entries :
      (es : List BlindIndexEntry)
      → ((v : ℕ) → includes (versions_of es) v ≡ true → includes compromised v ≡ false)
      → All (λ e. includes compromised e.key_version ≡ false) es
  clean_entries [] h = tt
  clean_entries (e ∷ es) h = (
    h e.key_version (ground (arith, ==-self e.key_version)),
    clean_entries es (λ v m. h v (ground (arith, m))),
  )

-- If the active version is not compromised, a rotation may be declared finished exactly when the
-- plan names no version to overwrite.
pub finished_iff_planned :
    (entries : List BlindIndexEntry) (compromised : List ℕ) (active : ℕ)
    → includes compromised active ≡ false
    → (assert_no_compromised_index_remains entries compromised ≡ ok tt)
      ↔ ((plan_blind_index_rotation entries compromised active).must_overwrite ≡ [])
finished_iff_planned entries compromised active h =
    let must = (plan_blind_index_rotation entries compromised active).must_overwrite in
    let rule = λ (v : ℕ). (plan_sound entries compromised active v).2 in
    let remains = remains_iff entries compromised in
    (
      λ done.
          nil_of_none must
            (λ v. ground (arith, rule v, clean_version compromised entries v (remains.0 done))),
      λ none_left. remains.1 (
          clean_entries compromised entries (λ v m. ground (
            arith,
            rule v,
            m,
            h,
            ap (λ l. includes l v) none_left,
            clean_of_active compromised active v h,
          ))),
    )
