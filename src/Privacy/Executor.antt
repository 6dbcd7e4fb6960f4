-- ===== src/Privacy/Executor.antt =====
-- packages/privacy/src/executor.ts: the life of a data subject's request. Each operation returns
-- the new job, or the error that it throws with the job left as it was.
use kommunsign.Prelude.{
  ℕ, String, ◌≡◌, Bool, true, false, not, ◌&&◌, Option, none, some, List, [], ◌∷◌, arith, Result,
  ok, ◌>>=◌, ◌>>◌, throw_if, map_err, leb, is_none, ◌==◌, ◌!=◌, Eq, eq_by_index, string_eq,
  includes, filter,
}
use kommunsign.Prelude.Sort.{sort}
use kommunsign.Prelude.Text.{trim, is_blank}
use kommunsign.Prelude.Number.{IsoDateTime, unparsable, instant, is_at_most}
use kommunsign.Privacy.Response.{
  DataSubjectRight, access, rectification, erasure, portability, right_eq, PrivacyRequestError,
  DataSubjectRequest, DataSubjectResponse, StoreCoverage, add_days, build_data_subject_response,
  response_deadline_days,
}

pub data PrivacyRequestState : Type 0 where
  received identity_verified in_progress fulfilled delivered refused : PrivacyRequestState

abbrev pub request_state_index : PrivacyRequestState → ℕ
request_state_index received = 0
request_state_index identity_verified = 1
request_state_index in_progress = 2
request_state_index fulfilled = 3
request_state_index delivered = 4
request_state_index refused = 5

pub request_state_index-injective :
    (a b : PrivacyRequestState) → request_state_index a ≡ request_state_index b → a ≡ b
request_state_index-injective a b h = ground arith

instance abbrev pub request_state_eq : Eq PrivacyRequestState
request_state_eq = eq_by_index request_state_index request_state_index-injective

pub data AssuranceLevel : Type 0 where
  low substantial high : AssuranceLevel

abbrev pub assurance_index : AssuranceLevel → ℕ
assurance_index low = 0
assurance_index substantial = 1
assurance_index high = 2

pub assurance_index-injective :
    (a b : AssuranceLevel) → assurance_index a ≡ assurance_index b → a ≡ b
assurance_index-injective a b h = ground arith

instance abbrev pub assurance_eq : Eq AssuranceLevel
assurance_eq = eq_by_index assurance_index assurance_index-injective

-- The codes of PrivacyExecutionError, and the errors of the decision layer.
pub data PrivacyError : Type 0 where
  state_invalid identity_not_verified identity_assurance_too_low subject_mismatch : PrivacyError
  tenant_mismatch restriction_active not_fulfilled refusal_needs_ground : PrivacyError
  request_error : PrivacyRequestError → PrivacyError

pub record SubjectIdentityVerification : Type 0 where
  pub verified : Bool
  pub method : String
  pub assurance_level : AssuranceLevel
  pub subject_id : String
  pub verified_at : IsoDateTime

pub record PrivacyRequestJob : Type 0 where
  pub request : DataSubjectRequest
  pub state : PrivacyRequestState
  pub subject_id : String
  pub identity : Option SubjectIdentityVerification
  pub handled_by : Option String
  pub refusal_ground : Option String
  pub response : Option DataSubjectResponse

abbrev pub high_assurance_rights : List DataSubjectRight
high_assurance_rights = access ∷ erasure ∷ portability ∷ rectification ∷ []

abbrev pub assert_state : PrivacyRequestJob → PrivacyRequestState → Result PrivacyError (Unit {0})
assert_state job expected = throw_if (job.state != expected) state_invalid

unfoldable pub deadline_for : DataSubjectRequest → Result PrivacyRequestError IsoDateTime
unfolding add_days
deadline_for request = add_days request.received_at response_deadline_days

unfoldable pub verify_subject_identity :
    PrivacyRequestJob → SubjectIdentityVerification → Result PrivacyError PrivacyRequestJob
verify_subject_identity job identity = do
  assert_state job received
  throw_if (not identity.verified) identity_not_verified
  throw_if (identity.subject_id != job.subject_id) subject_mismatch
  throw_if (includes high_assurance_rights job.request.right && identity.assurance_level != high)
      identity_assurance_too_low
  ok (record job { state = identity_verified; identity = some identity })

unfoldable pub begin_handling :
    PrivacyRequestJob → String → String → Result PrivacyError PrivacyRequestJob
begin_handling job handled_by tenant_id = do
  assert_state job identity_verified
  throw_if (tenant_id != job.request.tenant_id) tenant_mismatch
  ok (record job { state = in_progress; handled_by = some handled_by })

-- The request with the legal hold of now.
abbrev pub request_now : DataSubjectRequest → Bool → DataSubjectRequest
request_now request legal_hold_active = record request { legal_hold_active = legal_hold_active }

unfoldable pub fulfil_request :
    PrivacyRequestJob → List StoreCoverage → Bool → Bool → Result PrivacyError PrivacyRequestJob
fulfil_request job coverage legal_hold_active is_restricted = do
  assert_state job in_progress
  throw_if (is_none job.identity) identity_not_verified
  throw_if (job.request.right == erasure && is_restricted) restriction_active
  response ←
      map_err request_error
        (build_data_subject_response (request_now job.request legal_hold_active) coverage)
  ok (record job { state = fulfilled; response = some response })

-- `response === null || !response.complete`
abbrev pub is_incomplete : Option DataSubjectResponse → Bool
is_incomplete none = true
is_incomplete (some response) = not response.complete

unfoldable pub deliver_response : PrivacyRequestJob → Result PrivacyError PrivacyRequestJob
deliver_response job = do
  assert_state job fulfilled
  throw_if (is_incomplete job.response) not_fulfilled
  ok (record job { state = delivered })

unfoldable pub refuse_request : PrivacyRequestJob → String → Result PrivacyError PrivacyRequestJob
refuse_request job ground_given = do
  throw_if (job.state == delivered) state_invalid
  throw_if (is_blank ground_given) refusal_needs_ground
  ok (record job { state = refused; refusal_ground = some (trim ground_given) })

pub record OverdueRequest : Type 0 where
  pub request_id : String
  pub due_at : IsoDateTime
  pub state : PrivacyRequestState

abbrev pub is_open : PrivacyRequestJob → Bool
is_open job = job.state != delivered && job.state != refused

unfoldable pub with_deadlines :
    List PrivacyRequestJob → Result PrivacyRequestError (List OverdueRequest)
with_deadlines [] = ok []
with_deadlines (job ∷ jobs) = do
  due_at ← deadline_for job.request
  entries ← with_deadlines jobs
  ok (record { request_id = job.request.request_id; due_at = due_at; state = job.state } ∷ entries)

abbrev pub instant_le : IsoDateTime → IsoDateTime → Bool
instant_le unparsable b = true
instant_le (instant a) unparsable = false
instant_le (instant a) (instant b) = leb a b

-- The order of the deadlines' texts; up to the year 9999 it is that of the instants.
abbrev pub due_le : OverdueRequest → OverdueRequest → Bool
due_le a b = instant_le a.due_at b.due_at

unfoldable pub overdue_requests :
    List PrivacyRequestJob → ℕ → Result PrivacyRequestError (List OverdueRequest)
unfolding with_deadlines
overdue_requests jobs now = do
  entries ← with_deadlines (filter is_open jobs)
  ok (sort due_le (filter (λ (entry : OverdueRequest). is_at_most entry.due_at now) entries))
