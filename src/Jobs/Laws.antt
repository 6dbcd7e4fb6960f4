-- ===== src/Jobs/Laws.antt =====
-- What a run of a job settles.
use kommunsign.Prelude.{
  ℕ, ◌<◌, ◌+◌, ◌≤◌, ◌≡◌, refl, ap, subst, Bool, true, false, ◌||◌, none, some, List, [], ◌∷◌, ◌++◌,
  arith, ◌⊎◌, inl, inr, Bool-cases, Option-cases, ltb, leb, any, is_empty,
}
use kommunsign.Prelude.Number.{instant, max_date}
use kommunsign.Prelude.Text.{trim_codes}
use kommunsign.Jobs.{
  DurableJob, delay_milliseconds, Cause, Call, heartbeat, handle, complete, retry, dead_letter,
  Environment, Ran, run_all, attempt_calls, failure_code, is_dead, is_permanent, settle_failure,
  after_attempt, process_claimed_job,
}

-- A call that gives the job back.
abbrev pub is_release : Call → Bool
is_release heartbeat = false
is_release handle = false
is_release complete = false
is_release (retry at code) = true
is_release (dead_letter code) = true

-- The last of the calls threw.
pub record IsRaised (env : Environment) (calls : List Call) (cause : Cause) : Type 0 where
  pub front : List Call
  pub call : Call
  pub ended : calls ≡ front ++ call ∷ []
  pub raised : env.answer front call ≡ some cause

any-snoc :
    (calls : List Call) (call : Call)
    → any is_release calls ≡ false
    → is_release call ≡ false
    → any is_release (calls ++ call ∷ []) ≡ false
any-snoc [] call none_yet plain = rw plain refl
any-snoc (c ∷ calls) call none_yet plain = elim (Bool-cases (is_release c)) [
  | inl released ↦ absurd (ground arith)
  | inr kept ↦ rw kept (any-snoc calls call (rw kept at none_yet) plain)
]

run_all-returned :
    (env : Environment) (calls later : List Call) (call : Call)
    → env.answer calls call ≡ none
    → run_all env calls (call ∷ later) ≡ run_all env (calls ++ call ∷ []) later
unfolding run_all
run_all-returned env calls later call h = rw (run_all, h) refl

run_all-raised :
    (env : Environment) (calls later : List Call) (call : Call) (cause : Cause)
    → env.answer calls call ≡ some cause
    → run_all env calls (call ∷ later) ≡ record { calls = calls ++ call ∷ []; thrown = some cause }
unfolding run_all
run_all-raised env calls later call cause h = rw (run_all, h) refl

quiet-front :
    (front : List Call) (call : Call)
    → any is_release (front ++ call ∷ []) ≡ false
    → any is_release front ≡ false
quiet-front [] call h = refl
quiet-front (c ∷ front) call h =
    let (first, later) : (is_release c ≡ false) × (any is_release (front ++ call ∷ []) ≡ false) =
      ground arith in
    rw (first, quiet-front front call later) refl

-- Each of the calls returned.
pub data AllReturned (env : Environment) : List Call → Type 0 where
  no_call : AllReturned env []
  one_more :
      (calls : List Call) (call : Call)
      → AllReturned env calls
      → env.answer calls call ≡ none
      → AllReturned env (calls ++ call ∷ [])

-- What has to be done before a job is completed: the heartbeat, where there is one, and the handler.
abbrev pub duties : Bool → List Call
duties true = heartbeat ∷ handle ∷ []
duties false = handle ∷ []

snoc-append :
    (calls later : List Call) (call : Call) → (calls ++ call ∷ []) ++ later ≡ calls ++ call ∷ later
snoc-append [] later call = refl
snoc-append (c ∷ calls) later call = ap (λ l. c ∷ l) (snoc-append calls later call)

append-nil : (calls : List Call) → calls ++ [] ≡ calls
append-nil [] = refl
append-nil (c ∷ calls) = ap (λ l. c ∷ l) (append-nil calls)

-- The calls of `front` and then the completion: all of them return, or the last that was made threw.
-- The job is not given back among them.
record IsAttempted (env : Environment) (front : List Call) (ran : Ran Cause) : Type 0 where
  pub quiet : any is_release ran.calls ≡ false
  pub outcome :
      ((ran.calls ≡ front ++ complete ∷ [])
        × AllReturned env (front ++ complete ∷ [])
        × (ran.thrown ≡ none))
      ⊎ ((cause : Cause) × IsRaised env ran.calls cause × (ran.thrown ≡ some cause))

raised_attempt :
    (env : Environment) (calls : List Call) (call : Call) (cause : Cause)
    → any is_release calls ≡ false
    → is_release call ≡ false
    → env.answer calls call ≡ some cause
    → (front : List Call)
    → IsAttempted env front (record { calls = calls ++ call ∷ []; thrown = some cause })
raised_attempt env calls call cause quiet plain h front = record {
  quiet = any-snoc calls call quiet plain;
  outcome = inr (cause, record { front = calls; call = call; ended = refl; raised = h }, refl);
}

run_all-IsAttempted :
    (env : Environment) (calls later : List Call)
    → any is_release calls ≡ false
    → any is_release later ≡ false
    → AllReturned env calls
    → IsAttempted env (calls ++ later) (run_all env calls (later ++ complete ∷ []))
unfolding run_all
run_all-IsAttempted env calls [] quiet h done = elim (Option-cases (env.answer calls complete)) [
  | inl returned ↦
      rw (run_all-returned env calls [] complete returned, append-nil calls)
        (record {
          quiet = any-snoc calls complete quiet refl;
          outcome = inl (refl, one_more calls complete done returned, refl);
        })
  | inr (cause, raised) ↦
      rw (run_all-raised env calls [] complete cause raised)
        (raised_attempt env calls complete cause quiet refl raised (calls ++ []))
]
run_all-IsAttempted env calls (call ∷ later) quiet h done =
    let (plain, rest) : (is_release call ≡ false) × (any is_release later ≡ false) = ground arith in
    elim (Option-cases (env.answer calls call)) [
      | inl returned ↦
          let next =
            run_all-IsAttempted env (calls ++ call ∷ []) later (any-snoc calls call quiet plain)
              rest (one_more calls call done returned) in
          let ran = run_all env (calls ++ call ∷ []) (later ++ complete ∷ []) in
          rw (run_all-returned env calls (later ++ complete ∷ []) call returned)
            (subst (λ (l : List Call). IsAttempted env l ran) (snoc-append calls later call) next)
      | inr (cause, raised) ↦
          rw (run_all-raised env calls (later ++ complete ∷ []) call cause raised)
            (raised_attempt env calls call cause quiet plain raised (calls ++ call ∷ later))
    ]

attempt_calls-IsAttempted :
    (env : Environment) (b : Bool) → IsAttempted env (duties b) (run_all env [] (attempt_calls b))
attempt_calls-IsAttempted env true =
    run_all-IsAttempted env [] (heartbeat ∷ handle ∷ []) refl refl no_call
attempt_calls-IsAttempted env false = run_all-IsAttempted env [] (handle ∷ []) refl refl no_call

one_reason : (p : Bool) (m a : ℕ) → (p || leb m a) ≡ true → ((p ≡ true) ⊎ (m ≤ a))
one_reason true m a h = inl refl
one_reason false m a h = inr (ground arith)

no_reason : (p : Bool) (m a : ℕ) → (p || leb m a) ≡ false → (p ≡ false) × (a < m)
no_reason p m a h = (ground arith, ground arith)

module _ (upper : List ℕ → List ℕ) where
  -- The last call of a run and why it is made: the job is completed behind its heartbeat, where
  -- there is one, and its handler, all of which return, as the completion does; given up when
  -- something threw and that is permanent or the attempts are used up; and otherwise to be tried
  -- again, at the time of the delay.
  pub data Settlement {P : Type 0} (env : Environment) (job : DurableJob P) (now : ℕ)
      : List Call → Call → Type 0 where
    completed :
        (front : List Call)
        → front ≡ duties env.has_heartbeat
        → AllReturned env (front ++ complete ∷ [])
        → Settlement env job now front complete
    given_up :
        (front : List Call) (cause : Cause)
        → IsRaised env front cause
        → ((is_permanent upper cause ≡ true) ⊎ (job.maximum_attempts ≤ job.attempts))
        → Settlement env job now front (dead_letter (failure_code upper cause))
    tried_again :
        (front : List Call) (cause : Cause)
        → IsRaised env front cause
        → is_permanent upper cause ≡ false
        → job.attempts < job.maximum_attempts
        → Settlement env job now front (
            retry
              (instant (now + delay_milliseconds job.id job.attempts))
              (failure_code upper cause))

  -- A run that ends with a settlement, before which the job is not given back.
  pub record IsSettled {P : Type 0} (env : Environment) (job : DurableJob P) (now : ℕ)
      (calls : List Call) : Type 0 where
    pub front : List Call
    pub last : Call
    pub ended : calls ≡ front ++ last ∷ []
    pub quiet : any is_release front ≡ false
    pub settled : Settlement env job now front last

  failure-IsSettled :
      {P : Type 0} (env : Environment) (job : DurableJob P) (now : ℕ) (front : List Call)
      (cause : Cause)
      → now + delay_milliseconds job.id job.attempts ≤ max_date
      → any is_release front ≡ false
      → IsRaised env front cause
      → IsSettled env job now (settle_failure upper env job now front cause).calls
  unfolding settle_failure
  failure-IsSettled env job now front cause within quiet raised =
      let dated : leb (now + delay_milliseconds job.id job.attempts) max_date ≡ true =
        ground (arith, within) in
      elim (Bool-cases (is_dead upper job cause)) [
        | inl dead ↦ rw dead (record {
          front = front;
          last = dead_letter (failure_code upper cause);
          ended = refl;
          quiet = quiet;
          settled =
              given_up front cause raised
                (one_reason (is_permanent upper cause) job.maximum_attempts job.attempts dead);
        })
        | inr alive ↦
            rw (alive, dated)
              (record {
                front = front;
                last =
                    retry (instant (now + delay_milliseconds job.id job.attempts))
                      (failure_code upper cause);
                ended = refl;
                quiet = quiet;
                settled =
                    tried_again front cause raised
                      (no_reason (is_permanent upper cause) job.maximum_attempts job.attempts
                        alive).0
                      (no_reason (is_permanent upper cause) job.maximum_attempts job.attempts
                        alive).1;
              })
      ]

  attempt-IsSettled :
      {P : Type 0} (env : Environment) (job : DurableJob P) (now : ℕ) (ran : Ran Cause)
      → now + delay_milliseconds job.id job.attempts ≤ max_date
      → IsAttempted env (duties env.has_heartbeat) ran
      → IsSettled env job now (after_attempt upper env job now ran.calls ran.thrown).calls
  attempt-IsSettled env job now ran within h = elim h.outcome [
    | inl (ended, returned, whole) ↦ rw whole (record {
      front = duties env.has_heartbeat;
      last = complete;
      ended = ended;
      quiet =
          quiet-front (duties env.has_heartbeat) complete
            (subst (λ (l : List Call). any is_release l ≡ false) ended h.quiet);
      settled = completed (duties env.has_heartbeat) refl returned;
    })
    | inr (cause, raised, thrown) ↦
        rw thrown (failure-IsSettled env job now ran.calls cause within h.quiet raised)
  ]

  -- A worker with a name settles a job that it has claimed by exactly one last call, whatever the
  -- handler and the repository answer, as long as the time of a retry is one that a date can hold:
  -- it is completed only when its handler was called and has returned.
  pub job-IsSettled_once :
      {P : Type 0} (env : Environment) (worker_id : List ℕ) (job : DurableJob P) (now : ℕ)
      → is_empty (trim_codes worker_id) ≡ false
      → 1 ≤ job.attempts
      → now + delay_milliseconds job.id job.attempts ≤ max_date
      → IsSettled env job now (process_claimed_job upper env worker_id job now).calls
  unfolding process_claimed_job
  job-IsSettled_once env worker_id job now named claimed within =
      let counted : ltb job.attempts 1 ≡ false = ground (arith, claimed) in
      rw (named, counted)
        (attempt-IsSettled env job now (run_all env [] (attempt_calls env.has_heartbeat)) within
          (attempt_calls-IsAttempted env env.has_heartbeat))
