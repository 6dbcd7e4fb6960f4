-- ===== src/KeyRotation/Retirement.antt =====
-- Retiring the old key of a rotation, and rolling back.
use kommunsign.Prelude.{
  ℕ, ◌≤◌, ◌≡◌, ◌≢◌, refl, ◌↔◌, inl, inr, some, List, [], ◌∷◌, map, arith, ok, err, Option-cases,
  nat_eq, filter, find, length, >>-eq-ok, >>=-eq-ok, ok_injective,
}
use mathlib.Core.Option
use kommunsign.KeyRotation.{
  active, pending, key_state_eq, KeyVersion, KeyRing, is_active, numbers_of, has_number,
  find_version, active_key_version, reassign, retire, assert_readable_version,
  assert_writable_version, assert_key_ring_is_sane, RotationProgress, assert_rotation_complete,
  retire_old_version, rollback_rotation, state_invalid, version_retired, no_active_version,
}
use kommunsign.KeyRotation.Ring.{IsSane, ActiveIs, active_sound}
use kommunsign.KeyRotation.Rotation.{
  promoted-IsSane, writable_iff, active_moved, find_version_sound, find-reassign, includes-find,
  find_active_number,
}

numbers-retire : (n : ℕ) (vs : List KeyVersion) → numbers_of (map (retire n) vs) ≡ numbers_of vs
numbers-retire n [] = refl
numbers-retire n (v ∷ vs) = ground (arith, numbers-retire n vs)

find-retire :
    (r n : ℕ) (vs : List KeyVersion)
    → find (has_number n) (map (retire r) vs) ≡ Option.map (retire r) (find (has_number n) vs)
find-retire r n [] = refl
find-retire r n (v ∷ vs) = ground (arith, find-retire r n vs)

-- What must have been counted before the old key goes.
pub record IsFinished (progress : RotationProgress) : Type 0 where
  pub none_failed : progress.failed_rows ≡ 0
  pub all_reencrypted : progress.total_rows ≤ progress.reencrypted_rows
  pub all_verified : progress.total_rows ≤ progress.verified_rows

IsFinished-iff :
    (progress : RotationProgress)
    → (assert_rotation_complete progress ≡ ok tt) ↔ IsFinished progress
unfolding assert_rotation_complete
IsFinished-iff progress = (λ h. ground arith, λ f. ground arith)

retired_unreadable :
    (ring : KeyRing) (n : ℕ) (key : KeyVersion)
    → find (has_number n) ring.versions ≡ some key
    → assert_readable_version (record ring { versions = map (retire n) ring.versions }) n
      ≡ err version_retired
unfolding assert_readable_version find_version
retired_unreadable ring n key f =
    rw (find-retire n n ring.versions, f) (ground (arith, includes-find n ring.versions key f))

others_readable :
    (ring : KeyRing) (r n : ℕ)
    → n ≢ r
    → assert_readable_version (record ring { versions = map (retire r) ring.versions }) n
      ≡ assert_readable_version ring n
unfolding assert_readable_version find_version
others_readable ring r n ne = elim (Option-cases (find (has_number n) ring.versions)) [
  | inl missing ↦ rw (find-retire r n ring.versions, missing) refl
  | inr (key, f) ↦
      let number = (includes-find n ring.versions key f).1 in
      rw (find-retire r n ring.versions, f) (ground (arith, number))
]

readable-found :
    (ring : KeyRing) (n : ℕ)
    → assert_readable_version ring n ≡ ok tt
    → (key : KeyVersion) × (find (has_number n) ring.versions ≡ some key)
unfolding assert_readable_version
readable-found ring n h =
    let (key, is_key, rest) = >>=-eq-ok (find_version ring n) _ h in
    (key, find_version_sound ring n is_key)

-- The old key is retired only after a finished count: nothing failed, and all rows re-encrypted and
-- verified. From then on it does not read, and every other version reads or fails as before.
pub retirement_sound :
    (ring : KeyRing) (progress : RotationProgress) {ring' : KeyRing}
    → retire_old_version ring progress ≡ ok ring'
    → IsFinished progress
      × (assert_readable_version ring' progress.from_version ≡ err version_retired)
      × ((n : ℕ)
          → n ≢ progress.from_version
          → assert_readable_version ring' n ≡ assert_readable_version ring n)
unfolding retire_old_version
retirement_sound ring progress {ring' = result} h =
    let (finished, h1) = >>-eq-ok (assert_rotation_complete progress) _ h in
    let (readable, h2) = >>-eq-ok (assert_readable_version ring progress.from_version) _ h1 in
    let (key, f) = readable-found ring progress.from_version readable in
    rw (← ok_injective h2) (
      (IsFinished-iff progress).0 finished,
      retired_unreadable ring progress.from_version key f,
      others_readable ring progress.from_version,
    )

none_left :
    (n : ℕ) (vs : List KeyVersion)
    → ActiveIs n vs
    → length (filter is_active (map (retire n) vs)) ≡ 0
none_left n [] a = refl
none_left n (v ∷ vs) a = ground (arith, a.0, none_left n vs a.1)

pending_unreadable :
    (ring : KeyRing) (from to : ℕ) (key : KeyVersion)
    → find (has_number to) ring.versions ≡ some key
    → to ≢ from
    → assert_readable_version
        (record ring { versions = map (reassign from active to pending) ring.versions })
        to
      ≡ err state_invalid
unfolding assert_readable_version find_version
pending_unreadable ring from to key f ne =
    let number = (includes-find to ring.versions key f).1 in
    rw (find-reassign from active to pending to ring.versions, f) (ground (arith, number))

-- Nothing keeps the old version of the progress apart from the active one: where they are the same,
-- a finished count retires it all the same, and the ring is left without an active version.
pub retiring_active_breaks :
    (ring : KeyRing) (progress : RotationProgress) (key : KeyVersion)
    → IsSane ring
    → active_key_version ring ≡ ok key
    → progress.from_version ≡ key.version
    → IsFinished progress
    → (ring' : KeyRing) × (retire_old_version ring progress ≡ ok ring')
      × (assert_key_ring_is_sane ring' ≡ err no_active_version)
unfolding retire_old_version assert_key_ring_is_sane assert_readable_version find_version
    assert_rotation_complete
retiring_active_breaks ring progress key s is_key e f =
    let (s', found_it, on, others) = active_sound ring is_key in
    let by_number = find_active_number ring.versions key s.numbered found_it in
    let versions = map (retire key.version) ring.versions in
    let dead = none_left key.version ring.versions others in
    (
      record ring { versions = versions },
      rw (e, (IsFinished-iff progress).1 f, by_number) (ground arith),
      ground (arith, dead),
    )

-- A rollback from a rotation whose new version is the active one gives a sane ring that writes
-- under the old version again.
pub rollback_sound :
    (ring : KeyRing) (progress : RotationProgress) {ring' : KeyRing}
    → rollback_rotation ring progress ≡ ok ring'
    → IsSane ring
    → ActiveIs progress.to_version ring.versions
    → IsSane ring' × (assert_writable_version ring' progress.from_version ≡ ok tt)
unfolding rollback_rotation
rollback_sound ring progress {ring' = result} h s a =
    let (old, is_old, h1) = >>=-eq-ok (find_version ring progress.from_version) _ h in
    let found_old = find_version_sound ring progress.from_version is_old in
    let moved = reassign progress.from_version active progress.to_version pending in
    let same : result ≡ record ring { versions = map moved ring.versions } = ground (arith, h1) in
    let sane =
      promoted-IsSane ring progress.from_version progress.to_version pending old refl a s.numbered
        found_old in
    let only_old =
      active_moved progress.from_version progress.to_version pending refl ring.versions a in
    rw same (
      sane,
      (writable_iff (record ring { versions = map moved ring.versions }) progress.from_version sane
            only_old progress.from_version).1
          refl,
    )

-- A rollback makes the new version pending, and a pending version is refused for reading: rows that
-- the rotation had already moved to it cannot be read afterwards.
pub rollback_refuses_new :
    (ring : KeyRing) (progress : RotationProgress) {ring' : KeyRing} (key : KeyVersion)
    → rollback_rotation ring progress ≡ ok ring'
    → find_version ring progress.to_version ≡ ok key
    → progress.to_version ≢ progress.from_version
    → assert_readable_version ring' progress.to_version ≡ err state_invalid
unfolding rollback_rotation
rollback_refuses_new ring progress {ring' = result} key h k ne =
    let (old, is_old, h1) = >>=-eq-ok (find_version ring progress.from_version) _ h in
    let moved = reassign progress.from_version active progress.to_version pending in
    let same : result ≡ record ring { versions = map moved ring.versions } = ground (arith, h1) in
    let found_new = find_version_sound ring progress.to_version k in
    rw same (pending_unreadable ring progress.from_version progress.to_version key found_new ne)
