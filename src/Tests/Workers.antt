-- ===== src/Tests/Workers.antt =====
-- Runs of apps/workers/src/jobs.ts, and its theorems applied.
use kommunsign.Prelude.{
  ℕ, ◌*◌, ◌≤◌, ◌≡◌, refl, true, false, Option, none, some, List, [], ◌∷◌, arith, is_empty,
}
use kommunsign.Prelude.Number.{instant}
use kommunsign.Prelude.Text.{codes, trim_codes}
use kommunsign.Jobs.{
  DurableJob, document_scan, retry_delay_seconds, hash_units, delay_milliseconds, Cause, error,
  Call, heartbeat, handle, complete, retry, dead_letter, Environment, run_all, failure_code,
  safe_worker_error_code, settle_failure, process_claimed_job,
}
use kommunsign.Jobs.Delay.{delay_bounds}
use kommunsign.Jobs.Failures.{IsSafeCode, failure_code_lem}
use kommunsign.Jobs.Laws.{IsSettled, job-IsSettled_once}

-- Letters of ASCII are enough here.
abbrev as_they_are : List ℕ → List ℕ
as_they_are s = s

-- The handler fails, and all else returns.
abbrev answer_to : Cause → Call → Option Cause
answer_to cause heartbeat = none
answer_to cause handle = some cause
answer_to cause complete = none
answer_to cause (retry at code) = none
answer_to cause (dead_letter code) = none

abbrev failing : Cause → Environment
failing cause = record { has_heartbeat = true; answer = λ calls. answer_to cause }

abbrev job : ℕ → DurableJob (List ℕ)
job attempts = record {
  id = codes "j";
  tenant_id = codes "t";
  kind = document_scan;
  payload = [];
  idempotency_key = codes "k";
  available_at = instant 0;
  attempts = attempts;
  maximum_attempts = 3;
}

abbrev refused : Cause
refused = error (codes "Error") (codes "SCAN_REFUSED")

steps : Unit {0}
unfolding hash_units delay_milliseconds process_claimed_job failure_code
steps = tt

code_run : failure_code as_they_are (error (codes "E r") (codes "a secret")) ≡ codes "E__"
unfolding steps safe_worker_error_code
code_run = refl

last_attempt_run :
    (process_claimed_job as_they_are (failing refused) (codes "w") (job 3) 0).calls
    ≡ heartbeat ∷ handle ∷ dead_letter (codes "SCAN_REFUSED") ∷ []
unfolding steps run_all settle_failure trim_codes
last_attempt_run = refl

failure_code_lem_example :
    IsSafeCode (failure_code as_they_are (error (codes "E r") (codes "a secret")))
failure_code_lem_example = failure_code_lem as_they_are (error (codes "E r") (codes "a secret"))

delay_bounds_example :
    (retry_delay_seconds 3 * 500 ≤ delay_milliseconds (codes "j") 3)
    × (delay_milliseconds (codes "j") 3 ≤ retry_delay_seconds 3 * 1000)
    × (1 ≤ retry_delay_seconds 3)
    × (retry_delay_seconds 3 ≤ 1024)
    × (retry_delay_seconds 3 ≤ retry_delay_seconds 4)
delay_bounds_example = delay_bounds (codes "j") 3

named_run : is_empty (trim_codes (codes "w")) ≡ false
unfolding trim_codes
named_run = refl

job-IsSettled_once_example :
    IsSettled as_they_are
      (failing refused)
      (job 2)
      0
      (process_claimed_job as_they_are (failing refused) (codes "w") (job 2) 0).calls
job-IsSettled_once_example =
    job-IsSettled_once as_they_are (failing refused) (codes "w") (job 2) 0 named_run (omega arith)
      (omega (arith, delay_bounds (codes "j") 2))
