-- ===== src/Tests/SchedulingRuns.antt =====
-- The theorems on scheduling/scheduler.py and lifecycle/retry.py, for jobs whose dispatch always fails.
use Prim.Native.String.{◌++◌ as append, len}
use text.Mathlib.TextPositions.{len-append}
use meeting_bot_service.Prelude.{
  ℕ, zero, suc, ◌+◌, String, Option, none, some, List, [], ◌∷◌, ◌≡◌, refl, get, put, arith, ap,
}
use meeting_bot_service.Scheduling.Scheduler.{
  cancelled, Request, Spec, Job, Dispatched, threw, default_retry, cancel, schedule, file, make_job,
  resolve_execute_at,
}
use meeting_bot_service.Scheduling.Scheduler.Firing.{count_fired}
use meeting_bot_service.Scheduling.Scheduler.Lifetimes.{
  Operation, schedule_op, tick_op, empty, perform, perform_all,
}
use meeting_bot_service.Scheduling.Scheduler.Cancellation.{cancelled_never_fires}

-- the n-th id
abbrev numbered : ℕ → String
numbered zero = "j"
numbered (suc n) = append "x" (numbered n)

numbered-length : (n : ℕ) → len (numbered n) ≡ n + 1
numbered-length zero = refl
numbered-length (suc n) = omega (arith, len-append "x" (numbered n), numbered-length n)

distinct : (m n : ℕ) → numbered m ≡ numbered n → m ≡ n
distinct m n e = omega (arith, numbered-length m, numbered-length n, ap len e)

abbrev hourly : String → ℕ → ℕ
hourly cron now = now + 3600

abbrev always_down : ℕ → Request → Dispatched
always_down n request = threw "connection refused"

abbrev spawn_request : Request
spawn_request = record {
  method = "POST";
  url = "http://meeting-api/bots";
  headers = "{}";
  body = none;
  timeout = 30;
}

abbrev spawn_spec : Spec
spawn_spec = record {
  request = spawn_request;
  execute_at = some 100;
  cron = none;
  retry = default_retry;
  metadata = "{}";
  idempotency_key = none;
}

abbrev calls : List Operation
calls = schedule_op spawn_spec 0 ∷ tick_op 100 ∷ tick_op 200 ∷ tick_op 1000 ∷ tick_op 2000 ∷ []

abbrev cut_job : Job
cut_job = record {
  job_id = "j";
  execute_at = 100;
  created_at = 0;
  status = cancelled;
  request = spawn_request;
  retry = default_retry;
  metadata = "{}";
  cron = none;
  idempotency_key = none;
  result = none;
  completed_at = none;
  error = none;
  failed_at = none;
}

cancelled_never_fires_example :
    let s = perform_all numbered hourly always_down empty (schedule_op spawn_spec 0 ∷ []) in
    let cut = (cancel numbered hourly always_down s "j").0 in
    count_fired (perform_all numbered hourly always_down cut (tick_op 100 ∷ [])).fired "j"
    ≡ count_fired s.fired "j"
unfolding perform_all perform schedule file make_job resolve_execute_at get put cancel
cancelled_never_fires_example =
    cancelled_never_fires numbered hourly always_down distinct 3 (omega arith)
      (schedule_op spawn_spec 0 ∷ []) (tick_op 100 ∷ []) "j" cut_job
      ((refl, omega arith, omega arith), tt) (tt, tt) refl

abbrev respawn : ℕ → ℕ → Request
respawn meeting_id attempt = spawn_request

abbrev no_metadata : ℕ → ℕ → Option String → String
no_metadata meeting_id attempt reason = "{}"
