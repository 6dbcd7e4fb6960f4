-- ===== src/Privacy/Lifecycle.antt =====
-- The life of a data subject's request: what holds in each state, however the job came there.
use kommunsign.Prelude.{
  String, ◌≡◌, ◌≢◌, refl, sym, ◌∙◌, ◌⊎◌, inl, inr, Bool, true, false, some, List, arith, ok, eq_iff,
  Result-cases,
}
use kommunsign.Prelude.Text.{is_blank, trim}
use kommunsign.Privacy.Response.{
  erasure, right_eq, restriction, DataSubjectResponse, StoreCoverage, build_data_subject_response,
}
use kommunsign.Privacy.Coverage.{IsCovered, response_sound}
use kommunsign.Privacy.Executor.{
  PrivacyRequestState, received, identity_verified, in_progress, fulfilled, delivered, refused,
  request_state_eq, high, SubjectIdentityVerification, PrivacyRequestJob, request_now,
  verify_subject_identity, begin_handling, fulfil_request, deliver_response, refuse_request,
}

-- One successful operation.
pub data Step : PrivacyRequestJob → PrivacyRequestJob → Type 0 where
  verifies :
      {job job' : PrivacyRequestJob} (identity : SubjectIdentityVerification)
      → verify_subject_identity job identity ≡ ok job'
      → Step job job'
  begins :
      {job job' : PrivacyRequestJob} (handled_by tenant_id : String)
      → begin_handling job handled_by tenant_id ≡ ok job'
      → Step job job'
  fulfils :
      {job job' : PrivacyRequestJob} (coverage : List StoreCoverage) (held is_restricted : Bool)
      → fulfil_request job coverage held is_restricted ≡ ok job'
      → Step job job'
  delivers : {job job' : PrivacyRequestJob} → deliver_response job ≡ ok job' → Step job job'
  refuses :
      {job job' : PrivacyRequestJob} (given : String)
      → refuse_request job given ≡ ok job'
      → Step job job'

pub data Reach (job : PrivacyRequestJob) : PrivacyRequestJob → Type 0 where
  here : Reach job job
  next : {j k : PrivacyRequestJob} → Reach job j → Step j k → Reach job k

abbrev pub is_identified : PrivacyRequestState → Bool
is_identified received = false
is_identified refused = false
is_identified _ = true

abbrev pub is_answered : PrivacyRequestState → Bool
is_answered fulfilled = true
is_answered delivered = true
is_answered _ = false

-- The person behind the request has proved to be the data subject, strongly for every right but
-- the restriction of processing.
pub record IsIdentified (job : PrivacyRequestJob) : Type 0 where
  pub identity : SubjectIdentityVerification
  pub recorded : job.identity ≡ some identity
  pub verified : identity.verified ≡ true
  pub same_subject : identity.subject_id ≡ job.subject_id
  pub strong : (job.request.right ≡ restriction) ⊎ (identity.assurance_level ≡ high)

-- The answer that is recorded is complete and covers all stores.
pub record IsAnswered (job : PrivacyRequestJob) : Type 0 where
  pub response : DataSubjectResponse
  pub recorded : job.response ≡ some response
  pub covered : IsCovered response.coverage
  pub complete : response.complete ≡ true

pub record IsInOrder (job : PrivacyRequestJob) : Type 0 where
  pub identified : is_identified job.state ≡ true → IsIdentified job
  pub answered : is_answered job.state ≡ true → IsAnswered job

-- A request leaves the state `received` towards handling only by a verified identity of its data
-- subject, and of high assurance unless it asks for a restriction.
pub identity_sound :
    (job : PrivacyRequestJob) (identity : SubjectIdentityVerification) {job' : PrivacyRequestJob}
    → verify_subject_identity job identity ≡ ok job'
    → (job.state ≡ received)
      × IsIdentified job'
      × (job' ≡ record job { state = identity_verified; identity = some identity })
unfolding verify_subject_identity
identity_sound job identity {job' = result} h =
    let same : result ≡ record job { state = identity_verified; identity = some identity } =
      ground arith in
    (
      ground arith,
      rw same (record {
        identity = identity;
        recorded = refl;
        verified = ground arith;
        same_subject = ground (arith, eq_iff identity.subject_id job.subject_id);
        strong = ground arith;
      }),
      same,
    )

begin_sound :
    (job : PrivacyRequestJob) (handled_by tenant_id : String) {job' : PrivacyRequestJob}
    → begin_handling job handled_by tenant_id ≡ ok job'
    → (job.state ≡ identity_verified)
      × (tenant_id ≡ job.request.tenant_id)
      × (job' ≡ record job { state = in_progress; handled_by = some handled_by })
unfolding begin_handling
begin_sound job handled_by tenant_id h =
    (ground arith, ground (arith, eq_iff tenant_id job.request.tenant_id), ground arith)

-- Fulfilment asks the legal hold and the restriction of now: an erasure is fulfilled only if neither
-- is active, and the job then carries an answer that covers all stores.
pub fulfilment_sound :
    (job : PrivacyRequestJob) (coverage : List StoreCoverage) (held is_restricted : Bool)
    {job' : PrivacyRequestJob}
    → fulfil_request job coverage held is_restricted ≡ ok job'
    → (job.state ≡ in_progress)
      × ((job.request.right ≢ erasure) ⊎ ((held ≡ false) × (is_restricted ≡ false)))
      × IsAnswered job'
      × (job'.identity ≡ job.identity)
      × (job'.request ≡ job.request)
      × (job'.subject_id ≡ job.subject_id)
      × (job'.state ≡ fulfilled)
unfolding fulfil_request
fulfilment_sound job coverage held is_restricted {job' = result} h =
    elim (Result-cases (build_data_subject_response (request_now job.request held) coverage)) [
      | inl (response, built) ↦
          let (covered, free, kept, complete, total, due) =
            response_sound (request_now job.request held) coverage built in
          let same : result ≡ record job { state = fulfilled; response = some response } =
            ground (arith, built) in
          (
            ground (arith, built),
            ground (arith, built, free),
            rw same (record {
              response = response;
              recorded = refl;
              covered = rw kept covered;
              complete = complete;
            }),
            ground (arith, same),
            ground (arith, same),
            ground (arith, same),
            ground (arith, same),
          )
      | inr (e, failed) ↦ absurd (ground (arith, failed))
    ]

deliver_sound :
    (job : PrivacyRequestJob) {job' : PrivacyRequestJob}
    → deliver_response job ≡ ok job'
    → (job.state ≡ fulfilled) × (job' ≡ record job { state = delivered })
unfolding deliver_response
deliver_sound job h = (ground arith, ground arith)

-- A request is refused at any time before its delivery, but only with a ground, which is recorded
-- without the white space round it.
pub refusal_sound :
    (job : PrivacyRequestJob) (given : String) {job' : PrivacyRequestJob}
    → refuse_request job given ≡ ok job'
    → (job.state ≢ delivered)
      × (is_blank given ≡ false)
      × (job' ≡ record job { state = refused; refusal_ground = some (trim given) })
unfolding refuse_request
refusal_sound job given h = (ground arith, ground arith, ground arith)

Step-IsInOrder : {job job' : PrivacyRequestJob} → Step job job' → IsInOrder job → IsInOrder job'
Step-IsInOrder {job} (verifies identity h) a =
    let (s, identified, same) = identity_sound job identity h in
    record { identified = λ q. identified; answered = λ q. absurd (ground (arith, same)) }
Step-IsInOrder {job} (begins handled_by tenant_id h) a =
    let (s, t, same) = begin_sound job handled_by tenant_id h in
    let known = a.identified (rw s refl) in
    rw same (record {
      identified = λ q. record {
        identity = known.identity;
        recorded = known.recorded;
        verified = known.verified;
        same_subject = known.same_subject;
        strong = known.strong;
      };
      answered = λ q. cc;
    })
Step-IsInOrder {job} {job'} (fulfils coverage held is_restricted h) a =
    let (s, free, answered, identity, request, subject, after) =
      fulfilment_sound job coverage held is_restricted h in
    let known = a.identified (rw s refl) in
    record {
      identified = λ q. record {
        identity = known.identity;
        recorded = identity ∙ known.recorded;
        verified = known.verified;
        same_subject = known.same_subject ∙ sym subject;
        strong = rw request known.strong;
      };
      answered = λ q. answered;
    }
Step-IsInOrder {job} (delivers h) a =
    let (s, same) = deliver_sound job h in
    let known = a.identified (rw s refl) in
    let given = a.answered (rw s refl) in
    rw same (record {
      identified = λ q. record {
        identity = known.identity;
        recorded = known.recorded;
        verified = known.verified;
        same_subject = known.same_subject;
        strong = known.strong;
      };
      answered = λ q. record {
        response = given.response;
        recorded = given.recorded;
        covered = given.covered;
        complete = given.complete;
      };
    })
Step-IsInOrder {job} (refuses given h) a =
    let (s, g, same) = refusal_sound job given h in
    rw same (record { identified = λ q. cc; answered = λ q. cc })

-- Whatever the operations and their order, from a received request on: no data is handled before
-- the data subject is identified, and what is delivered covers all stores.
pub Reach-IsInOrder :
    {job job' : PrivacyRequestJob} → job.state ≡ received → Reach job job' → IsInOrder job'
Reach-IsInOrder start here = record {
  identified = λ q. absurd (ground (arith, start));
  answered = λ q. absurd (ground (arith, start));
}
Reach-IsInOrder start (next r s) = Step-IsInOrder s (Reach-IsInOrder start r)

-- A delivered request is final: it cannot even be refused.
pub delivered_final : {job job' : PrivacyRequestJob} → job.state ≡ delivered → Step job job' → ⊥
delivered_final {job} e (verifies identity h) = ground (arith, e, (identity_sound job identity h).0)
delivered_final {job} e (begins handled_by tenant_id h) =
    ground (arith, e, (begin_sound job handled_by tenant_id h).0)
delivered_final {job} e (fulfils coverage held is_restricted h) =
    ground (arith, e, (fulfilment_sound job coverage held is_restricted h).0)
delivered_final {job} e (delivers h) = ground (arith, e, (deliver_sound job h).0)
delivered_final {job} e (refuses given h) = (refusal_sound job given h).0 e
