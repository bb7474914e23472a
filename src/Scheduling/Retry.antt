-- ===== src/Scheduling/Retry.antt =====
-- lifecycle/retry.py: the retry of a failed join as a scheduled spawn.
pub mod Bounded
use Prim.Native.String.{◌++◌ as append}
use meeting_bot_service.Prelude.{
  ℕ, ◌+◌, ◌-◌, min, Bool, true, false, String, Option, none, some, List, [], ◌∷◌, length, get_or,
  leb, show_nat, if◌then◌else◌,
}
use mathlib.Core.Option
use meeting_bot_service.Lifecycle.Types.{CompletionReason, reason_value}
use meeting_bot_service.Scheduling.Scheduler.{
  Request, Spec, Job, Scheduler, Dispatched, default_retry, schedule,
}

pub data RetryClass : Type 0 where
  transient permanent : RetryClass

-- classify_retry
unfoldable pub classify_retry : Option CompletionReason → RetryClass
classify_retry (some CompletionReason.awaiting_admission_timeout) = transient
classify_retry (some CompletionReason.join_failure) = transient
classify_retry _ = permanent

-- is_transient
abbrev class_is_transient : RetryClass → Bool
class_is_transient transient = true
class_is_transient permanent = false

unfoldable pub is_transient : Option CompletionReason → Bool
unfolding classify_retry
is_transient reason = class_is_transient (classify_retry reason)

pub record RetryPolicy : Type 0 where
  pub max_attempts : ℕ
  pub backoff : List ℕ

-- RetryPolicy()
abbrev pub default_policy : RetryPolicy
default_policy = record { max_attempts = 3; backoff = 30 ∷ 120 ∷ 300 ∷ [] }

-- RetryPolicy.delay_for, for a backoff that is not empty
unfoldable pub retry_delay : RetryPolicy → ℕ → ℕ
retry_delay p attempt = get_or p.backoff (min (attempt - 1) (length p.backoff - 1)) 0

pub data Action : Type 0 where
  scheduled_retry exhausted not_retried : Action

pub record RetryOutcome : Type 0 where
  pub action : Action
  pub attempt : ℕ
  pub reason : Option String
  pub next_at : Option ℕ
  pub job_id : Option String

-- the key of one attempt of one meeting
unfoldable pub retry_key : ℕ → ℕ → String
retry_key meeting_id attempt =
    append "join_retry:" (append (show_nat meeting_id) (append ":" (show_nat attempt)))

-- `metadata` is the JSON text of the job's metadata
module _ (new_id : ℕ → String) (next_time : String → ℕ → ℕ) (dispatch : ℕ → Request → Dispatched)
    (respawn_request : ℕ → ℕ → Request) (metadata : ℕ → ℕ → Option String → String) where
  unfoldable pub respawn_spec : RetryPolicy → ℕ → Option CompletionReason → ℕ → ℕ → Spec
  unfolding retry_delay retry_key
  respawn_spec p meeting_id reason next now = record {
    request = respawn_request meeting_id next;
    execute_at = some (now + retry_delay p next);
    cron = none;
    retry = default_retry;
    metadata = metadata meeting_id next (Option.map reason_value reason);
    idempotency_key = some (retry_key meeting_id next);
  }

  -- JoinRetryController.on_join_failure at the scheduler's time `now`; `none` is the ValueError of
  -- `schedule`
  unfoldable pub on_join_failure :
      Scheduler
      → RetryPolicy
      → ℕ
      → Option CompletionReason
      → ℕ
      → ℕ
      → Scheduler × Option RetryOutcome
  unfolding is_transient respawn_spec
  on_join_failure s p meeting_id reason attempt now =
      let outcome : Action → Option ℕ → Option String → RetryOutcome = λ action at id. record {
        action = action;
        attempt = attempt;
        reason = Option.map reason_value reason;
        next_at = at;
        job_id = id;
      } in
      if is_transient reason
      then (if leb p.max_attempts (attempt + 1)
          then (s, some (outcome exhausted none none))
          else (let spec = respawn_spec p meeting_id reason (attempt + 1) now in
              let (s', job) = schedule new_id next_time dispatch s spec now in
              (
                s',
                Option.map (λ (j : Job). outcome scheduled_retry spec.execute_at (some j.job_id))
                    job,
              )))
      else (s, some (outcome not_retried none none))
