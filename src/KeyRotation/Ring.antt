-- ===== src/KeyRotation/Ring.antt =====
-- Sane key rings: one active version, and no number twice.
use kommunsign.Prelude.{
  ℕ, ◌≡◌, refl, ◌↔◌, inl, inr, Bool, true, false, some, List, [], ◌∷◌, arith, ok, Bool-cases,
  nat_eq, filter, find, length, is_empty, All, Distinct, >>-eq-ok,
}
use kommunsign.Prelude.Unique.{duplicates_iff}
use kommunsign.KeyRotation.{
  key_state_eq, KeyVersion, KeyRing, is_active, numbers_of, assert_key_ring_is_sane,
  active_key_version,
}

pub record IsSane (ring : KeyRing) : Type 0 where
  pub one_active : length (filter is_active ring.versions) ≡ 1
  pub numbered : Distinct (numbers_of ring.versions)

IsSane-sound : (ring : KeyRing) → assert_key_ring_is_sane ring ≡ ok tt → IsSane ring
unfolding assert_key_ring_is_sane
IsSane-sound ring h = record {
  one_active = ground arith;
  numbered = (duplicates_iff (numbers_of ring.versions)).0 (ground arith);
}

nonempty : (vs : List KeyVersion) → length (filter is_active vs) ≡ 1 → is_empty vs ≡ false
nonempty [] h = absurd (omega arith)
nonempty (v ∷ vs) h = refl

sane_complete : (ring : KeyRing) → IsSane ring → assert_key_ring_is_sane ring ≡ ok tt
unfolding assert_key_ring_is_sane
sane_complete ring s =
    let fine = (duplicates_iff (numbers_of ring.versions)).1 s.numbered in
    rw (nonempty ring.versions s.one_active, s.one_active, fine) refl

-- A ring passes the check exactly when one version is active and no number is used twice.
pub IsSane-iff : (ring : KeyRing) → (assert_key_ring_is_sane ring ≡ ok tt) ↔ IsSane ring
IsSane-iff ring = (IsSane-sound ring, sane_complete ring)

-- The active versions of a list all have this number.
abbrev pub ActiveIs : ℕ → List KeyVersion → Type 0
ActiveIs number = All (λ key. is_active key ≡ true → key.version ≡ number)

none_active :
    (vs : List KeyVersion) (number : ℕ) → length (filter is_active vs) ≡ 0 → ActiveIs number vs
none_active [] number h = tt
none_active (v ∷ vs) number h = elim (Bool-cases (is_active v)) [
  | inl yes_active ↦ absurd (ground arith)
  | inr no_active ↦ ((λ p. absurd (ground arith)), none_active vs number (rw no_active at h))
]

-- The active version of a ring with one of them.
pub the_active :
    (vs : List KeyVersion)
    → length (filter is_active vs) ≡ 1
    → (key : KeyVersion) × (find is_active vs ≡ some key)
      × (is_active key ≡ true)
      × ActiveIs key.version vs
the_active [] h = absurd (omega arith)
the_active (v ∷ vs) h = elim (Bool-cases (is_active v)) [
  | inl hit ↦ (v, rw hit, hit, ((λ p. refl), none_active vs v.version (ground arith)))
  | inr miss ↦
      let (key, found_it, on, others) = the_active vs (rw miss at h) in
      (key, rw miss found_it, on, ((λ p. absurd (ground arith)), others))
]

pub find_sound :
    (p : KeyVersion → Bool) (vs : List KeyVersion) {key : KeyVersion}
    → find p vs ≡ some key
    → p key ≡ true
find_sound p [] h = cc
find_sound p (v ∷ vs) h = elim (Bool-cases (p v)) [
  | inl hit ↦ ground (arith, hit, h)
  | inr miss ↦ find_sound p vs (rw miss at h)
]

pub find_All {κ} :
    (P : KeyVersion → Type κ) (p : KeyVersion → Bool) (vs : List KeyVersion) {key : KeyVersion}
    → find p vs ≡ some key
    → All P vs
    → P key
find_All P p [] h a = absurd (cc)
find_All P p (v ∷ vs) h a = elim (Bool-cases (p v)) [
  | inl hit ↦ rw (← some_inj (rw hit at h)) a.0
  | inr miss ↦ find_All P p vs (rw miss at h) a.1
]
  where
    some_inj : {a b : KeyVersion} → some a ≡ some b → a ≡ b
    some_inj e = cc

pub active_sound :
    (ring : KeyRing) {key : KeyVersion}
    → active_key_version ring ≡ ok key
    → IsSane ring
      × (find is_active ring.versions ≡ some key)
      × (is_active key ≡ true)
      × ActiveIs key.version ring.versions
unfolding active_key_version
active_sound ring h =
    let (sane, h') = >>-eq-ok (assert_key_ring_is_sane ring) _ h in
    let s = IsSane-sound ring sane in
    let (key, found_it, on, others) = the_active ring.versions s.one_active in
    let same : key ≡ _ = ground (arith, found_it, h') in
    (s, rw same at found_it, rw same at on, rw same at others)

-- In a sane ring the active version is found.
pub active_total :
    (ring : KeyRing)
    → IsSane ring
    → (key : KeyVersion) × (active_key_version ring ≡ ok key) × (is_active key ≡ true)
unfolding active_key_version
active_total ring s =
    let (key, found_it, on, others) = the_active ring.versions s.one_active in
    (key, rw (sane_complete ring s, found_it) refl, on)
