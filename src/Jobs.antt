-- ===== src/Jobs.antt =====
-- apps/workers/src/jobs.ts: how a worker runs a job that it has claimed. A text is the list of its
-- code units.
pub mod Delay
pub mod Failures
pub mod Laws
use Prim.Native.Nat.{bit_xor}
use kommunsign.Prelude.{
  ℕ, zero, suc, ◌+◌, ◌-◌, ◌*◌, ◌/◌, ◌%◌, ◌^◌, min, max, ◌≤◌, Bool, true, false, not, ◌&&◌, ◌||◌,
  Option, none, some, List, [], ◌∷◌, ◌++◌, map, ltb, leb, nat_beq, all, length, take, is_empty,
  if◌then◌else◌, ◌==◌,
}
use kommunsign.Prelude.Number.{IsoDateTime, to_iso_string}
use kommunsign.Prelude.Text.{codes, trim_codes}
use kommunsign.Prelude.TextOrder.{codes_eq}

pub data DurableJobType : Type 0 where
  application_notification application_deadline tenant_provision : DurableJobType
  tenant_readiness tenant_activation certificate_monitor document_scan : DurableJobType
  document_canonicalize identity_status_poll signature_create : DurableJobType
  signature_validate pades_create pades_validate tic_evidence_collect : DurableJobType
  evidence_package_build email_send webhook_deliver reminder_send : DurableJobType
  case_expire archive_export retention_execute privacy_request_execute : DurableJobType

-- `Payload` is what the handler of the job reads.
pub record DurableJob (Payload : Type 0) : Type 0 where
  pub id : List ℕ
  pub tenant_id : List ℕ
  pub kind : DurableJobType
  pub payload : Payload
  pub idempotency_key : List ℕ
  pub available_at : IsoDateTime
  pub attempts : ℕ
  pub maximum_attempts : ℕ

abbrev pub retry_delay_seconds : ℕ → ℕ
retry_delay_seconds attempts = min 3600 (2 ^ min (max 1 attempts - 1) 10)

-- The digits of a number, before `digits`.
unfoldable pub push_decimal : ℕ → ℕ → List ℕ → List ℕ
push_decimal zero n digits = digits
push_decimal (suc fuel) n digits =
    let rest = push_decimal fuel (n / 10) ((48 + n % 10) ∷ digits) in
    if ltb n 10 then (48 + n) ∷ digits else rest

-- A number in a template, with one more round than it could need.
unfoldable pub decimal : ℕ → List ℕ
unfolding push_decimal
decimal n = push_decimal (suc n) n []

-- One round of the hash: `Math.imul(hash ^ unit, 16777619) >>> 0`.
abbrev pub mix : ℕ → ℕ → ℕ
mix hash unit = bit_xor hash unit * 16777619 % 4294967296

unfoldable pub hash_units : ℕ → List ℕ → ℕ
hash_units hash [] = hash
hash_units hash (unit ∷ seed) = hash_units (mix hash unit) seed

abbrev pub max_uint32 : ℕ
max_uint32 = 4294967295

unfoldable pub seed_of : List ℕ → ℕ → List ℕ
unfolding decimal
seed_of id attempts = id ++ b':' ∷ decimal (max 1 attempts)

-- In parts of which 2 * max_uint32 are a second, so that the fraction of the source is whole; its
-- floating point rounds this number.
unfoldable pub jittered_retry_delay : List ℕ → ℕ → ℕ
unfolding hash_units seed_of
jittered_retry_delay id attempts =
    let base = retry_delay_seconds attempts in
    min (3600 * (2 * max_uint32))
      (base * max_uint32 + base * hash_units 2166136261 (seed_of id attempts))

-- `delaySeconds * 1000`, as `new Date` truncates it.
unfoldable pub delay_milliseconds : List ℕ → ℕ → ℕ
unfolding jittered_retry_delay
delay_milliseconds id attempts = jittered_retry_delay id attempts * 1000 / (2 * max_uint32)

-- What is thrown: an Error, or any other value.
pub data Cause : Type 0 where
  not_error : Cause
  error : List ℕ → List ℕ → Cause

-- `[A-Z0-9_]`
abbrev pub is_code_letter : ℕ → Bool
is_code_letter c = leb 65 c && leb c 90 || leb 48 c && leb c 57 || nat_beq c 95

abbrev pub to_code_letter : ℕ → ℕ
to_code_letter c = if is_code_letter c then c else 95

abbrev pub or_worker_error : List ℕ → List ℕ
or_worker_error [] = codes "WORKER_ERROR"
or_worker_error (c ∷ s) = c ∷ s

-- `/^[A-Z][A-Z0-9_]{2,79}$/`
abbrev pub is_message_code : List ℕ → Bool
is_message_code [] = false
is_message_code (c ∷ s) =
    leb 65 c && leb c 90 && (leb 2 (length s) && leb (length s) 79 && all is_code_letter s)

-- The calls that the worker waits for, of the handler and of the repository.
pub data Call : Type 0 where
  heartbeat handle complete : Call
  retry : IsoDateTime → List ℕ → Call
  dead_letter : List ℕ → Call

-- What a call answers after the calls before it: nothing, or what it throws.
pub record Environment : Type 0 where
  pub has_heartbeat : Bool
  pub answer : List Call → Call → Option Cause

pub data JobError : Type 0 where
  worker_required attempt_missing range_error : JobError
  thrown_by_call : Cause → JobError

pub record Ran (E : Type 0) : Type 0 where
  pub calls : List Call
  pub thrown : Option E

-- Calls one after the other, up to the first that throws.
unfoldable pub run_all : Environment → List Call → List Call → Ran Cause
run_all env calls [] = record { calls = calls; thrown = none }
run_all env calls (call ∷ later) = elim (env.answer calls call) [
  | none ↦ run_all env (calls ++ call ∷ []) later
  | some cause ↦ record { calls = calls ++ call ∷ []; thrown = some cause }
]

-- The body of the `try`, of a repository with a heartbeat or without.
abbrev pub attempt_calls : Bool → List Call
attempt_calls true = heartbeat ∷ handle ∷ complete ∷ []
attempt_calls false = handle ∷ complete ∷ []

-- `upper` is the letters' part of `toUpperCase`.
module _ (upper : List ℕ → List ℕ) where
  unfoldable pub safe_worker_error_code : Cause → List ℕ
  safe_worker_error_code not_error = codes "UNKNOWN_WORKER_ERROR"
  safe_worker_error_code (error name message) =
      or_worker_error (take 80 (map to_code_letter (upper name)))

  unfoldable pub failure_code : Cause → List ℕ
  unfolding safe_worker_error_code
  failure_code not_error = safe_worker_error_code not_error
  failure_code (error name message) =
      if is_message_code message then message else safe_worker_error_code (error name message)

  abbrev pub is_permanent : Cause → Bool
  is_permanent not_error = false
  is_permanent (error name message) = name == codes "PermanentWorkerError"

  abbrev pub is_dead : {Payload : Type 0} → DurableJob Payload → Cause → Bool
  is_dead job cause = is_permanent cause || leb job.maximum_attempts job.attempts

  abbrev pub as_job_error : Option Cause → Option JobError
  as_job_error none = none
  as_job_error (some cause) = some (thrown_by_call cause)

  abbrev pub last_call : Environment → List Call → Call → Ran JobError
  last_call env calls call = record {
    calls = calls ++ call ∷ [];
    thrown = as_job_error (env.answer calls call);
  }

  abbrev pub retry_at : Environment → List Call → Option IsoDateTime → List ℕ → Ran JobError
  retry_at env calls none code = record { calls = calls; thrown = some range_error }
  retry_at env calls (some at) code = last_call env calls (retry at code)

  -- The `catch`, at the time `now`.
  unfoldable pub settle_failure :
      {Payload : Type 0} → Environment → DurableJob Payload → ℕ → List Call → Cause → Ran JobError
  unfolding failure_code delay_milliseconds
  settle_failure env job now calls cause =
      if is_dead job cause
      then last_call env calls (dead_letter (failure_code cause))
      else retry_at env calls (to_iso_string (now + delay_milliseconds job.id job.attempts))
          (failure_code cause)

  abbrev pub after_attempt :
      {Payload : Type 0}
      → Environment
      → DurableJob Payload
      → ℕ
      → List Call
      → Option Cause
      → Ran JobError
  after_attempt env job now calls none = record { calls = calls; thrown = none }
  after_attempt env job now calls (some cause) = settle_failure env job now calls cause

  unfoldable pub process_claimed_job :
      {Payload : Type 0} → Environment → List ℕ → DurableJob Payload → ℕ → Ran JobError
  unfolding run_all settle_failure
  process_claimed_job env worker_id job now =
      let attempted = run_all env [] (attempt_calls env.has_heartbeat) in
      if is_empty (trim_codes worker_id)
      then record { calls = []; thrown = some worker_required }
      else if ltb job.attempts 1
      then record { calls = []; thrown = some attempt_missing }
      else after_attempt env job now attempted.calls attempted.thrown
