-- ===== src/KeyRotation/Rotation.antt =====
-- Starting a rotation, retiring the old key and rolling back.
use kommunsign.Prelude.{
  ℕ, ◌≡◌, ◌≢◌, refl, sym, ◌∙◌, ◌↔◌, inl, inr, Bool, true, false, some, List, [], ◌∷◌, map, arith,
  ok, if◌then◌else◌, Bool-cases, ◌==◌, ==_iff, ==-self, nat_eq, includes, filter, find, length,
  Distinct, subst, >>=-eq-ok,
}
use mathlib.Core.Option
use kommunsign.KeyRotation.{
  KeyVersionState, active, decrypt_only, pending, retired, key_state_eq, KeyVersion, KeyRing,
  is_active, numbers_of, has_number, find_version, active_key_version, reassign, begin_dual_read,
  assert_readable_version, assert_writable_version,
}
use kommunsign.KeyRotation.Ring.{IsSane, ActiveIs, active_sound, active_total, find_sound, find_All}

module _ (t : ℕ) (s : KeyVersionState) (c : ℕ) (s' : KeyVersionState) where
  numbers-reassign :
      (vs : List KeyVersion) → numbers_of (map (reassign t s c s') vs) ≡ numbers_of vs
  numbers-reassign [] = refl
  numbers-reassign (v ∷ vs) = ground (arith, numbers-reassign vs)

  pub find-reassign :
      (n : ℕ) (vs : List KeyVersion)
      → find (has_number n) (map (reassign t s c s') vs)
        ≡ Option.map (reassign t s c s') (find (has_number n) vs)
  find-reassign n [] = refl
  find-reassign n (v ∷ vs) = ground (arith, find-reassign n vs)

-- After the two moves of a promotion exactly the promoted version is active.
module _ (t c : ℕ) (s' : KeyVersionState) (rests : (s' == active) ≡ false) where
  pub active_moved :
      (vs : List KeyVersion) → ActiveIs c vs → ActiveIs t (map (reassign t active c s') vs)
  active_moved [] a = tt
  active_moved (v ∷ vs) a = (λ p. ground (arith, a.0), active_moved vs a.1)

  count_moved :
      (vs : List KeyVersion)
      → ActiveIs c vs
      → Distinct (numbers_of vs)
      → length (filter is_active (map (reassign t active c s') vs))
        ≡ (if includes (numbers_of vs) t then 1 else 0)
  count_moved [] a d = refl
  count_moved (v ∷ vs) a d = ground (arith, a.0, d.0, count_moved vs a.1 d.1)

pub includes-find :
    (n : ℕ) (vs : List KeyVersion) (key : KeyVersion)
    → find (has_number n) vs ≡ some key
    → (includes (numbers_of vs) n ≡ true) × (key.version ≡ n)
includes-find n [] key h = absurd (cc)
includes-find n (v ∷ vs) key h = ground (arith, includes-find n vs key)

pub find_version_sound :
    (ring : KeyRing) (n : ℕ) {key : KeyVersion}
    → find_version ring n ≡ ok key
    → find (has_number n) ring.versions ≡ some key
unfolding find_version
find_version_sound ring n h = ground arith

pub promoted-IsSane :
    (ring : KeyRing) (t c : ℕ) (s' : KeyVersionState) (key : KeyVersion)
    → (s' == active) ≡ false
    → ActiveIs c ring.versions
    → Distinct (numbers_of ring.versions)
    → find (has_number t) ring.versions ≡ some key
    → IsSane (record ring { versions = map (reassign t active c s') ring.versions })
promoted-IsSane ring t c s' key rests a d f = record {
  one_active =
      count_moved t c s' rests ring.versions a d
      ∙ ground (arith, includes-find t ring.versions key f);
  numbered = rw (numbers-reassign t active c s' ring.versions) d;
}

-- What a rotation in its dual-read window promises: the new key writes, the old one does not, and
-- both read.
pub record IsDualRead (ring : KeyRing) (old new : ℕ) : Type 0 where
  pub sane : IsSane ring
  pub writes_new : assert_writable_version ring new ≡ ok tt
  pub refuses_old : assert_writable_version ring old ≢ ok tt
  pub reads_new : assert_readable_version ring new ≡ ok tt
  pub reads_old : assert_readable_version ring old ≡ ok tt

pub writable_iff :
    (ring : KeyRing) (n : ℕ)
    → IsSane ring
    → ActiveIs n ring.versions
    → (m : ℕ) → (assert_writable_version ring m ≡ ok tt) ↔ (m ≡ n)
unfolding assert_writable_version
writable_iff ring n s a m =
    let (key, is_key, on) = active_total ring s in
    let (s', found_it, on', others) = active_sound ring is_key in
    let number : key.version ≡ n =
      find_All (λ k. is_active k ≡ true → k.version ≡ n) is_active ring.versions found_it a on in
    ground (arith, is_key, number)

readable_moved :
    (ring : KeyRing) (t c n : ℕ) (key : KeyVersion)
    → find (has_number n) ring.versions ≡ some key
    → (reassign t active c decrypt_only key).state ≢ retired
    → (reassign t active c decrypt_only key).state ≢ pending
    → assert_readable_version
        (record ring { versions = map (reassign t active c decrypt_only) ring.versions })
        n
      ≡ ok tt
unfolding assert_readable_version find_version
readable_moved ring t c n key f r p =
    rw (find-reassign t active c decrypt_only n ring.versions, f) (ground arith)

includes_found :
    (p : KeyVersion → Bool) (vs : List KeyVersion) (key : KeyVersion)
    → find p vs ≡ some key
    → includes (numbers_of vs) key.version ≡ true
includes_found p [] key h = absurd (cc)
includes_found p (v ∷ vs) key h = elim (Bool-cases (p v)) [
  | inl hit ↦ ground (arith, hit, h)
  | inr miss ↦ ground (arith, includes_found p vs key (rw miss at h))
]

-- With no number used twice, the number of the active version leads back to it.
pub find_active_number :
    (vs : List KeyVersion) (key : KeyVersion)
    → Distinct (numbers_of vs)
    → find is_active vs ≡ some key
    → find (has_number key.version) vs ≡ some key
find_active_number [] key d h = absurd (cc)
find_active_number (v ∷ vs) key d h = elim (Bool-cases (is_active v)) [
  | inl on ↦ let same : v ≡ key = ground (arith, on, h) in rw (← same, ==-self v.version) refl
  | inr off ↦
      let rest = rw off at h in
      let there = includes_found is_active vs key rest in
      let other : (v.version == key.version) ≡ false =
        ground (arith, d.0, there, ==_iff v.version key.version) in
      rw other (find_active_number vs key d.1 rest)
]

-- Every dual-read window that is opened is sound: the ring stays sane, only the promoted version
-- writes, the one that was active until then is kept for reading, and no number changes.
pub IsDualRead-sound :
    (ring : KeyRing) (to_version : ℕ) {ring' : KeyRing}
    → begin_dual_read ring to_version ≡ ok ring'
    → (old : KeyVersion) × (active_key_version ring ≡ ok old)
      × IsDualRead ring' old.version to_version
      × (numbers_of ring'.versions ≡ numbers_of ring.versions)
unfolding begin_dual_read
IsDualRead-sound ring t {ring' = result} h =
    let (old, is_old, h1) = >>=-eq-ok (active_key_version ring) _ h in
    let (following, is_following, h2) = >>=-eq-ok (find_version ring t) _ h1 in
    let (s, found_old, on, others) = active_sound ring is_old in
    let found_new = find_version_sound ring t is_following in
    let by_number = find_active_number ring.versions old s.numbered found_old in
    let waiting : following.state ≡ pending = ground (arith, h2) in
    let apart : t ≢ old.version = λ e.
      ground (arith, subst (λ n. find (has_number n) ring.versions ≡ some following) e found_new) in
    let moved = reassign t active old.version decrypt_only in
    let ring' = record ring { versions = map moved ring.versions } in
    let sane =
      promoted-IsSane ring t old.version decrypt_only following refl others s.numbered found_new in
    let only_new = active_moved t old.version decrypt_only refl ring.versions others in
    let same : result ≡ ring' = ground (arith, h2) in
    rw same (
      old,
      is_old,
      record {
        sane = sane;
        writes_new = (writable_iff ring' t sane only_new t).1 refl;
        refuses_old = λ w. apart (sym ((writable_iff ring' t sane only_new old.version).0 w));
        reads_new =
            readable_moved ring t old.version t following found_new
              (ground (arith, find_sound (has_number t) ring.versions found_new))
              (ground (arith, find_sound (has_number t) ring.versions found_new));
        reads_old =
            readable_moved ring t old.version old.version old by_number (ground arith)
              (ground arith);
      },
      numbers-reassign t active old.version decrypt_only ring.versions,
    )
