-- ===== src/Tests/Keys.antt =====
-- A rotation of a ring with a leaked key.
use kommunsign.Prelude.{ℕ, ◌≡◌, refl, Bool, false, List, [], ◌∷◌, ok, nat_eq}
use kommunsign.KeyRotation.{
  KeyVersion, KeyRing, KeyVersionState, pending, active, decrypt_only, retired, sensitive_data,
  RotationProgress, verified, numbers_of, active_key_version, find_version, assert_key_ring_is_sane,
  assert_readable_version, begin_dual_read, retire_old_version, assert_rotation_complete,
  rollback_rotation, BlindIndexEntry,
}
use kommunsign.KeyRotation.Rotation.{IsDualRead, IsDualRead-sound}

rings : Unit {0}
unfolding active_key_version find_version assert_key_ring_is_sane assert_readable_version
    assert_rotation_complete
rings = tt

abbrev key : ℕ → KeyVersionState → Bool → KeyVersion
key version state compromised = record {
  version = version;
  state = state;
  secret_reference = "kms";
  created_at = "2026";
  compromised = compromised;
}

abbrev before : KeyRing
before = record {
  purpose = sensitive_data;
  versions = key 1 active false ∷ key 2 pending false ∷ [];
}

abbrev window : KeyRing
window = record before { versions = key 1 decrypt_only false ∷ key 2 active false ∷ [] }

abbrev after : KeyRing
after = record before { versions = key 1 retired false ∷ key 2 active false ∷ [] }

abbrev progress : RotationProgress
progress = record {
  purpose = sensitive_data;
  state = verified;
  from_version = 1;
  to_version = 2;
  total_rows = 3;
  reencrypted_rows = 3;
  verified_rows = 3;
  failed_rows = 0;
}

begin_run : begin_dual_read before 2 ≡ ok window
unfolding begin_dual_read rings
begin_run = refl

retire_run : retire_old_version window progress ≡ ok after
unfolding retire_old_version rings
retire_run = refl

rollback_run : rollback_rotation window progress ≡ ok before
unfolding rollback_rotation rings
rollback_run = refl

IsDualRead-sound_example :
    (old : KeyVersion) × (active_key_version before ≡ ok old)
    × IsDualRead window old.version 2
    × (numbers_of window.versions ≡ numbers_of before.versions)
IsDualRead-sound_example = IsDualRead-sound before 2 begin_run

abbrev entries : List BlindIndexEntry
entries =
    record { key_version = 2; index_value = "a" }
    ∷ record { key_version = 1; index_value = "b" }
    ∷ []
