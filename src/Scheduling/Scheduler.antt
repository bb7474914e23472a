-- ===== src/Scheduling/Scheduler.antt =====
-- scheduling/scheduler.py: the job scheduler of the meeting API. Times are whole seconds. A job's key
-- in `_jobs` is its id, which is new for every job and stands for the source's JSON of the job;
-- results and errors are opaque texts.
pub mod Firing
pub mod Steps
pub mod Lifetimes
pub mod Cancellation
use mathlib.Core.Option
use meeting_bot_service.Prelude.{
  ℕ, suc, ◌+◌, ◌-◌, min, Bool, true, false, String, Option, none, some, List, [], ◌∷◌, ◌++◌, Dict,
  get, put, remove, length, get_or, ltb, leb, is_empty, str_eq, if◌then◌else◌,
}

pub data JobStatus : Type 0 where
  pending executing completed cancelled failed : JobStatus

pub record Request : Type 0 where
  pub method : String
  pub url : String
  pub headers : String
  pub body : Option String
  pub timeout : ℕ

pub record Retry : Type 0 where
  pub max_attempts : ℕ
  pub backoff : List ℕ
  pub attempt : ℕ

-- DEFAULT_RETRY
abbrev pub default_retry : Retry
default_retry = record { max_attempts = 3; backoff = 30 ∷ 120 ∷ 300 ∷ []; attempt = 0 }

-- the spec of a job; `retry` is the merge of the spec's with the defaults
pub record Spec : Type 0 where
  pub request : Request
  pub execute_at : Option ℕ
  pub cron : Option String
  pub retry : Retry
  pub metadata : String
  pub idempotency_key : Option String

pub record Job : Type 0 where
  pub job_id : String
  pub execute_at : ℕ
  pub created_at : ℕ
  pub status : JobStatus
  pub request : Request
  pub retry : Retry
  pub metadata : String
  pub cron : Option String
  pub idempotency_key : Option String
  pub result : Option String
  pub completed_at : Option ℕ
  pub error : Option String
  pub failed_at : Option ℕ

-- a pending job and its score
pub record Slot : Type 0 where
  pub job : Job
  pub score : ℕ

-- a Scheduler: its four maps, the number of ids drawn, and the requests dispatched, oldest first
pub record Scheduler : Type 0 where
  pub jobs : Dict Slot
  pub running : Dict Job
  pub history : Dict Job
  pub idem : Dict Job
  pub drawn : ℕ
  pub fired : List (String × ℕ)

-- what a dispatch does: it returns a result, or raises
pub data Dispatched : Type 0 where
  returned threw : String → Dispatched

abbrev pub truthy : Option String → Option String
truthy none = none
truthy (some s) = if is_empty s then none else some s

-- The code of others: the n-th id, `croniter`'s next time, and the n-th dispatch.
module _ (new_id : ℕ → String) (next_time : String → ℕ → ℕ)
    (dispatch : ℕ → Request → Dispatched) where
  -- _resolve_execute_at; `none` is the ValueError
  unfoldable pub resolve_execute_at : Spec → ℕ → Option ℕ
  resolve_execute_at spec now = elim spec.execute_at [
    | some t ↦ some t
    | none ↦ Option.map (λ (cron : String). next_time cron now) (truthy spec.cron)
  ]

  -- _make_job; `none` is the ValueError
  unfoldable pub make_job : Scheduler → Spec → ℕ → Option Job
  unfolding resolve_execute_at
  make_job s spec now =
      if is_empty spec.request.url
      then none
      else Option.map
          (λ (at : ℕ). record {
            job_id = new_id s.drawn;
            execute_at = at;
            created_at = now;
            status = pending;
            request = spec.request;
            retry = spec.retry;
            metadata = spec.metadata;
            cron = spec.cron;
            idempotency_key = spec.idempotency_key;
            result = none;
            completed_at = none;
            error = none;
            failed_at = none;
          })
          (resolve_execute_at spec now)

  -- `self._jobs[json.dumps(job)] = job["execute_at"]`
  abbrev pub insert : Scheduler → Job → Scheduler
  insert s job = record s {
    jobs = put s.jobs job.job_id (record { job = job; score = job.execute_at });
  }

  -- the rest of `schedule`, by the job's idempotency key
  unfoldable pub file : Scheduler → Job → Option String → Scheduler × Job
  file s job none = (insert s job, job)
  file s job (some key) = elim (get s.idem key) [
    | some existing ↦ (s, existing)
    | none ↦ (insert (record s { idem = put s.idem key job }) job, job)
  ]

  -- schedule; `none` is the ValueError
  unfoldable pub schedule : Scheduler → Spec → ℕ → Scheduler × Option Job
  unfolding make_job file
  schedule s spec now = elim (make_job s spec now) [
    | none ↦ (s, none)
    | some job ↦
        let (s', filed) =
          file (record s { drawn = suc s.drawn }) job (truthy job.idempotency_key) in
        (s', some filed)
  ]

  -- cancel
  unfoldable pub cancel : Scheduler → String → Scheduler × Option Job
  cancel s id = elim (get s.jobs id) [
    | none ↦ (s, none)
    | some slot ↦
        let job = record slot.job { status = cancelled } in
        (record s { jobs = remove s.jobs id; history = put s.history id job }, some job)
  ]

  -- _reschedule_cron
  unfoldable pub reschedule_cron : Scheduler → Job → ℕ → Scheduler
  unfolding schedule
  reschedule_cron s job now = elim (truthy job.cron) [
    | none ↦ s
    | some cron ↦
        (schedule s
          (record {
            request = job.request;
            execute_at = some (next_time cron now);
            cron = some cron;
            retry = default_retry;
            metadata = job.metadata;
            idempotency_key = none;
          })
          now).0
  ]

  -- the delay before the retry of an attempt
  unfoldable pub delay_for : List ℕ → ℕ → ℕ
  delay_for backoff attempt = get_or backoff (min (attempt - 1) (length backoff - 1)) 0

  -- what follows a dispatch that raised
  unfoldable pub after_failure : Scheduler → Job → ℕ → String → Scheduler
  unfolding delay_for
  after_failure s job now error =
      let attempt = job.retry.attempt + 1 in
      if ltb attempt job.retry.max_attempts
      then record s {
        running = remove s.running job.job_id;
        jobs = put s.jobs job.job_id (record {
          job = record job { status = pending; retry = record job.retry { attempt = attempt } };
          score = now + delay_for job.retry.backoff attempt;
        });
      }
      else record s {
        running = remove s.running job.job_id;
        history =
            put s.history job.job_id
              (record job { status = failed; error = some error; failed_at = some now });
      }

  -- what follows a dispatch that returned
  unfoldable pub after_success : Scheduler → Job → ℕ → String → Scheduler
  unfolding reschedule_cron
  after_success s job now result =
      let done = record job { status = completed; result = some result; completed_at = some now } in
      reschedule_cron
        (record s {
          running = remove s.running job.job_id;
          history = put s.history job.job_id done;
        })
        done now

  unfoldable pub settle : Scheduler → Job → ℕ → Dispatched → Scheduler
  unfolding after_failure after_success
  settle s job now (returned result) = after_success s job now result
  settle s job now (threw error) = after_failure s job now error

  -- _process, for the job of an id
  unfoldable pub process : ℕ → Scheduler → String → Scheduler
  unfolding settle
  process now s id = elim (get s.jobs id) [
    | none ↦ s
    | some slot ↦
        let job = record slot.job { status = executing } in
        settle
          (record s {
            jobs = remove s.jobs id;
            running = put s.running id job;
            fired = s.fired ++ (id, now) ∷ [];
          })
          job now (dispatch (length s.fired) job.request)
  ]

  -- the ids of the jobs that are due
  unfoldable pub due : ℕ → Dict Slot → List String
  due now [] = []
  due now ((id, slot) ∷ jobs) = if leb slot.score now then id ∷ due now jobs else due now jobs

  unfoldable pub process_all : ℕ → Scheduler → List String → Scheduler
  unfolding process
  process_all now s [] = s
  process_all now s (id ∷ ids) = process_all now (process now s id) ids

  -- tick, and the number processed
  unfoldable pub tick : Scheduler → ℕ → Scheduler × ℕ
  unfolding process_all due
  tick s now = (process_all now s (due now s.jobs), length (due now s.jobs))
