-- ===== src/Tests/Requests.antt =====
-- A request for access, from its receipt to the delivery.
use kommunsign.Prelude.{
  ℕ, ◌+◌, ◌*◌, ◌≡◌, ◌≢◌, refl, ◌⊎◌, true, false, none, some, List, [], ◌∷◌, ok, sum_by,
}
use kommunsign.Prelude.Text.{is_blank}
use kommunsign.Prelude.Number.{whole, to_ℕ, instant, ms_per_day}
use kommunsign.Privacy.Response.{
  access, erasure, control, data_plane, object_storage, audit_log, backup, PersonalDataStore,
  StoreCoverage, DataSubjectRequest, DataSubjectResponse, build_data_subject_response,
  check_coverage, add_days, response_deadline_days,
}
use kommunsign.Privacy.Coverage.{IsCovered, response_sound}
use kommunsign.Privacy.Executor.{
  received, identity_verified, in_progress, fulfilled, delivered, refused, high,
  SubjectIdentityVerification, PrivacyRequestJob, verify_subject_identity, begin_handling,
  fulfil_request, deliver_response, refuse_request,
}
use kommunsign.Privacy.Lifecycle.{
  here, next, verifies, begins, fulfils, delivers, IsInOrder, Reach-IsInOrder,
}

abbrev request : DataSubjectRequest
request = record {
  tenant_id = "t";
  request_id = "r";
  right = access;
  received_at = instant 5000;
  legal_hold_active = false;
}

abbrev identity : SubjectIdentityVerification
identity = record {
  verified = true;
  method = "BankID";
  assurance_level = high;
  subject_id = "anna";
  verified_at = instant 6000;
}

abbrev job : PrivacyRequestJob
job = record {
  request = request;
  state = received;
  subject_id = "anna";
  identity = none;
  handled_by = none;
  refusal_ground = none;
  response = none;
}

abbrev searched : PersonalDataStore → StoreCoverage
searched store = record {
  store = store;
  record_count = whole 2;
  searched = true;
  exemption_reason = none;
}

abbrev coverage : List StoreCoverage
coverage =
    searched backup
    ∷ searched control
    ∷ searched data_plane
    ∷ searched object_storage
    ∷ searched audit_log
    ∷ []

abbrev response : DataSubjectResponse
response = record {
  request_id = "r";
  right = access;
  schema_version = 1;
  due_at = instant (5000 + 30 * ms_per_day);
  coverage = coverage;
  total_records = 10;
  exempted_stores = [];
  complete = true;
}

abbrev known_job : PrivacyRequestJob
known_job = record job { state = identity_verified; identity = some identity }

abbrev open_job : PrivacyRequestJob
open_job = record known_job { state = in_progress; handled_by = some "bo" }

abbrev answered_job : PrivacyRequestJob
answered_job = record open_job { state = fulfilled; response = some response }

respond_run : build_data_subject_response request coverage ≡ ok response
unfolding build_data_subject_response check_coverage add_days
respond_run = refl

verify_run : verify_subject_identity job identity ≡ ok known_job
unfolding verify_subject_identity
verify_run = refl

begin_run : begin_handling known_job "bo" "t" ≡ ok open_job
unfolding begin_handling
begin_run = refl

fulfil_run : fulfil_request open_job coverage false false ≡ ok answered_job
unfolding fulfil_request build_data_subject_response check_coverage add_days
fulfil_run = refl

deliver_run : deliver_response answered_job ≡ ok (record answered_job { state = delivered })
unfolding deliver_response
deliver_run = refl

refuse_run :
    refuse_request job "  art. 12 "
    ≡ ok (record job { state = refused; refusal_ground = some "art. 12" })
unfolding refuse_request is_blank
refuse_run = refl

response_sound_example :
    IsCovered coverage
    × ((request.right ≢ erasure) ⊎ (request.legal_hold_active ≡ false))
    × (response.coverage ≡ coverage)
    × (response.complete ≡ true)
    × (response.total_records ≡ sum_by (λ e. to_ℕ e.record_count) coverage)
    × ((t : ℕ) × (request.received_at ≡ instant t)
        × (response.due_at ≡ instant (t + response_deadline_days * ms_per_day)))
response_sound_example = response_sound request coverage respond_run

Reach-IsInOrder_example : IsInOrder (record answered_job { state = delivered })
Reach-IsInOrder_example = Reach-IsInOrder {job = job} refl (
    next
      (next (next (next here (verifies identity verify_run)) (begins "bo" "t" begin_run))
        (fulfils coverage false false fulfil_run))
      (delivers deliver_run))
