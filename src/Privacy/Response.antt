-- ===== src/Privacy/Response.antt =====
-- packages/privacy/src/index.ts: the answer to a data subject's request.
use kommunsign.Prelude.{
  ℕ, String, ◌+◌, ◌*◌, ◌≡◌, Bool, true, false, not, ◌&&◌, Option, none, some, List, [], ◌∷◌, map,
  arith, Result, ok, err, ◌>>=◌, ◌>>◌, throw_if, ◌==◌, Eq, eq_by_index, includes, filter, is_empty,
  sum_by,
}
use kommunsign.Prelude.Text.{is_missing, is_blank}
use kommunsign.Prelude.Number.{
  Number, is_safe_from, to_ℕ, IsoDateTime, unparsable, instant, is_before, ms_per_day,
  to_iso_string,
}

pub data DataSubjectRight : Type 0 where
  access rectification restriction erasure portability : DataSubjectRight

abbrev pub right_index : DataSubjectRight → ℕ
right_index access = 0
right_index rectification = 1
right_index restriction = 2
right_index erasure = 3
right_index portability = 4

pub right_index-injective : (a b : DataSubjectRight) → right_index a ≡ right_index b → a ≡ b
right_index-injective a b h = ground arith

instance abbrev pub right_eq : Eq DataSubjectRight
right_eq = eq_by_index right_index right_index-injective

abbrev pub data_subject_rights : List DataSubjectRight
data_subject_rights = access ∷ rectification ∷ restriction ∷ erasure ∷ portability ∷ []

pub data PersonalDataStore : Type 0 where
  control data_plane object_storage audit_log backup : PersonalDataStore

abbrev pub store_index : PersonalDataStore → ℕ
store_index control = 0
store_index data_plane = 1
store_index object_storage = 2
store_index audit_log = 3
store_index backup = 4

pub store_index-injective : (a b : PersonalDataStore) → store_index a ≡ store_index b → a ≡ b
store_index-injective a b h = ground arith

instance abbrev pub store_eq : Eq PersonalDataStore
store_eq = eq_by_index store_index store_index-injective

abbrev pub personal_data_stores : List PersonalDataStore
personal_data_stores = control ∷ data_plane ∷ object_storage ∷ audit_log ∷ backup ∷ []

abbrev pub response_deadline_days : ℕ
response_deadline_days = 30

-- The codes of PrivacyRequestError; `time_range` is the RangeError of `toISOString`.
pub data PrivacyRequestError : Type 0 where
  right_unknown erasure_blocked_by_legal_hold store_unknown store_duplicate : PrivacyRequestError
  record_count_invalid store_not_searched coverage_incomplete : PrivacyRequestError
  timestamp_invalid time_range : PrivacyRequestError

pub record StoreCoverage : Type 0 where
  pub store : PersonalDataStore
  pub record_count : Number
  pub searched : Bool
  pub exemption_reason : Option String

pub record DataSubjectRequest : Type 0 where
  pub tenant_id : String
  pub request_id : String
  pub right : DataSubjectRight
  pub received_at : IsoDateTime
  pub legal_hold_active : Bool

pub record DataSubjectResponse : Type 0 where
  pub request_id : String
  pub right : DataSubjectRight
  pub schema_version : ℕ
  pub due_at : IsoDateTime
  pub coverage : List StoreCoverage
  pub total_records : ℕ
  pub exempted_stores : List PersonalDataStore
  pub complete : Bool

unfoldable pub add_days : IsoDateTime → ℕ → Result PrivacyRequestError IsoDateTime
add_days unparsable days = err timestamp_invalid
add_days (instant base) days = elim (to_iso_string (base + days * ms_per_day)) [
  | none ↦ err time_range
  | some t ↦ ok t
]

-- `entry.exemptionReason?.trim()` is something.
abbrev pub has_ground : Option String → Bool
has_ground none = false
has_ground (some reason) = not (is_blank reason)

-- The loop over the coverage, with the set of the stores seen; it returns that set.
unfoldable pub check_coverage :
    List PersonalDataStore
    → List StoreCoverage
    → Result PrivacyRequestError (List PersonalDataStore)
check_coverage seen [] = ok seen
check_coverage seen (entry ∷ entries) = do
  throw_if (not (includes personal_data_stores entry.store)) store_unknown
  throw_if (includes seen entry.store) store_duplicate
  throw_if (not (is_safe_from 0 entry.record_count)) record_count_invalid
  throw_if (not entry.searched && not (has_ground entry.exemption_reason)) store_not_searched
  check_coverage (entry.store ∷ seen) entries

abbrev pub stores_of : List StoreCoverage → List PersonalDataStore
stores_of coverage = map (λ (entry : StoreCoverage). entry.store) coverage

unfoldable pub build_data_subject_response :
    DataSubjectRequest → List StoreCoverage → Result PrivacyRequestError DataSubjectResponse
build_data_subject_response request coverage = do
  throw_if (not (includes data_subject_rights request.right)) right_unknown
  throw_if (request.right == erasure && request.legal_hold_active) erasure_blocked_by_legal_hold
  seen ← check_coverage [] coverage
  throw_if (not (is_empty (filter (λ store. not (includes seen store)) personal_data_stores)))
      coverage_incomplete
  due_at ← add_days request.received_at response_deadline_days
  ok (record {
    request_id = request.request_id;
    right = request.right;
    schema_version = 1;
    due_at = due_at;
    coverage = coverage;
    total_records = sum_by (λ (entry : StoreCoverage). to_ℕ entry.record_count) coverage;
    exempted_stores =
        stores_of
          (filter (λ (entry : StoreCoverage). not (is_missing entry.exemption_reason)) coverage);
    complete = true;
  })

unfoldable pub erasure_exemption : PersonalDataStore → Option String
erasure_exemption audit_log =
    some
      "Åtkomstloggar bevaras enligt PUB-avtalet 7.5 och raderas först fem år efter loggningstillfället"
erasure_exemption backup =
    some "Säkerhetskopior punktraderas inte; uppgifterna försvinner när backupretentionen löper ut"
erasure_exemption _ = none

unfoldable pub is_overdue : DataSubjectResponse → ℕ → Bool
is_overdue response now = is_before response.due_at now
