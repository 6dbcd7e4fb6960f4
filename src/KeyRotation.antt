-- ===== src/KeyRotation.antt =====
-- packages/crypto/src/key-rotation.ts: rings of key versions and their rotation.
pub mod Ring
pub mod Rotation
pub mod BlindIndex
pub mod Retirement
use kommunsign.Prelude.{
  ℕ, String, ◌≡◌, Bool, true, false, not, ◌&&◌, Option, none, some, List, [], ◌∷◌, map, arith,
  Result, ok, err, ◌>>=◌, ◌>>◌, throw_if, if◌then◌else◌, ltb, leb, is_none, ◌==◌, ◌!=◌, Eq,
  eq_by_index, nat_eq, includes, filter, find, length, is_empty, unique,
}
use kommunsign.Prelude.Sort.{sort}
use kommunsign.Prelude.Unique.{has_duplicates}

pub data KeyVersionState : Type 0 where
  pending active decrypt_only retired : KeyVersionState

abbrev pub key_state_index : KeyVersionState → ℕ
key_state_index pending = 0
key_state_index active = 1
key_state_index decrypt_only = 2
key_state_index retired = 3

pub key_state_index-injective :
    (a b : KeyVersionState) → key_state_index a ≡ key_state_index b → a ≡ b
key_state_index-injective a b h = ground arith

instance abbrev pub key_state_eq : Eq KeyVersionState
key_state_eq = eq_by_index key_state_index key_state_index-injective

pub data KeyRotationError : Type 0 where
  version_unknown version_retired no_active_version multiple_active_versions : KeyRotationError
  write_to_non_active_version rotation_incomplete rotation_not_verified : KeyRotationError
  compromised_index_retained state_invalid : KeyRotationError

pub record KeyVersion : Type 0 where
  pub version : ℕ
  pub state : KeyVersionState
  pub secret_reference : String
  pub created_at : String
  pub compromised : Bool

pub data KeyPurpose : Type 0 where
  sensitive_data blind_index : KeyPurpose

pub record KeyRing : Type 0 where
  pub purpose : KeyPurpose
  pub versions : List KeyVersion

abbrev pub is_active : KeyVersion → Bool
is_active key = key.state == active

abbrev pub numbers_of : List KeyVersion → List ℕ
numbers_of versions = map (λ (key : KeyVersion). key.version) versions

unfoldable pub assert_key_ring_is_sane : KeyRing → Result KeyRotationError (Unit {0})
assert_key_ring_is_sane ring = do
  throw_if (is_empty ring.versions) no_active_version
  throw_if (length (filter is_active ring.versions) == 0) no_active_version
  throw_if (ltb 1 (length (filter is_active ring.versions))) multiple_active_versions
  throw_if (has_duplicates (numbers_of ring.versions)) state_invalid

-- `find(...)!`: a sane ring has an active version, so the error below is never met.
abbrev pub found : {A : Type 0} → KeyRotationError → Option A → Result KeyRotationError A
found e none = err e
found e (some a) = ok a

unfoldable pub active_key_version : KeyRing → Result KeyRotationError KeyVersion
active_key_version ring =
    assert_key_ring_is_sane ring >> found no_active_version (find is_active ring.versions)

unfoldable pub rotation_required : KeyRing → Result KeyRotationError Bool
rotation_required ring = do current ← active_key_version ring; ok current.compromised

unfoldable pub assert_writable_version : KeyRing → ℕ → Result KeyRotationError (Unit {0})
assert_writable_version ring version = do
  current ← active_key_version ring
  throw_if (version != current.version) write_to_non_active_version

abbrev pub has_number : ℕ → KeyVersion → Bool
has_number version key = key.version == version

unfoldable pub find_version : KeyRing → ℕ → Result KeyRotationError KeyVersion
find_version ring version = found version_unknown (find (has_number version) ring.versions)

unfoldable pub assert_readable_version : KeyRing → ℕ → Result KeyRotationError (Unit {0})
assert_readable_version ring version = do
  key ← find_version ring version
  throw_if (key.state == retired) version_retired
  throw_if (key.state == pending) state_invalid

pub data RotationState : Type 0 where
  planned dual_read reencrypting verified completed rolled_back : RotationState

pub record RotationProgress : Type 0 where
  pub purpose : KeyPurpose
  pub state : RotationState
  pub from_version : ℕ
  pub to_version : ℕ
  pub total_rows : ℕ
  pub reencrypted_rows : ℕ
  pub verified_rows : ℕ
  pub failed_rows : ℕ

abbrev pub with_state : KeyVersionState → KeyVersion → KeyVersion
with_state state key = record key { state = state }

-- The two moves that `beginDualRead` and `rollbackRotation` make over the versions: one version
-- takes a state, another one takes another, and the first test wins.
abbrev pub reassign : ℕ → KeyVersionState → ℕ → KeyVersionState → KeyVersion → KeyVersion
reassign first state second other_state key =
    if key.version == first
    then with_state state key
    else if key.version == second
    then with_state other_state key
    else key

unfoldable pub begin_dual_read : KeyRing → ℕ → Result KeyRotationError KeyRing
begin_dual_read ring to_version = do
  current ← active_key_version ring
  following ← find_version ring to_version
  throw_if (following.state != pending) state_invalid
  throw_if following.compromised state_invalid
  ok (record ring {
    versions = map (reassign to_version active current.version decrypt_only) ring.versions;
  })

unfoldable pub assert_rotation_complete : RotationProgress → Result KeyRotationError (Unit {0})
assert_rotation_complete progress = do
  throw_if (ltb 0 progress.failed_rows) rotation_incomplete
  throw_if (ltb progress.reencrypted_rows progress.total_rows) rotation_incomplete
  throw_if (ltb progress.verified_rows progress.total_rows) rotation_not_verified

abbrev pub retire : ℕ → KeyVersion → KeyVersion
retire version key = if key.version == version then with_state retired key else key

unfoldable pub retire_old_version : KeyRing → RotationProgress → Result KeyRotationError KeyRing
retire_old_version ring progress = do
  assert_rotation_complete progress
  assert_readable_version ring progress.from_version
  ok (record ring { versions = map (retire progress.from_version) ring.versions })

unfoldable pub rollback_rotation : KeyRing → RotationProgress → Result KeyRotationError KeyRing
rollback_rotation ring progress = do
  old ← find_version ring progress.from_version
  throw_if (old.state == retired) state_invalid
  throw_if old.compromised state_invalid
  ok (record ring {
    versions =
        map (reassign progress.from_version active progress.to_version pending) ring.versions;
  })

pub record BlindIndexEntry : Type 0 where
  pub key_version : ℕ
  pub index_value : String

pub record BlindIndexPlan : Type 0 where
  pub lookup_versions : List ℕ
  pub must_overwrite : List ℕ

unfoldable pub plan_blind_index_rotation : List BlindIndexEntry → List ℕ → ℕ → BlindIndexPlan
plan_blind_index_rotation entries compromised_versions active_version =
    let present =
      sort leb (unique (map (λ (entry : BlindIndexEntry). entry.key_version) entries)) in
    record {
      lookup_versions = present;
      must_overwrite =
          filter (λ version. includes compromised_versions version && version != active_version)
            present;
    }

unfoldable pub assert_no_compromised_index_remains :
    List BlindIndexEntry → List ℕ → Result KeyRotationError (Unit {0})
assert_no_compromised_index_remains entries compromised_versions =
    throw_if
      (ltb 0 (
        length (
          filter (λ (entry : BlindIndexEntry). includes compromised_versions entry.key_version)
            entries)))
      compromised_index_retained
