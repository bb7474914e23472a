-- ===== src/Scheduling/Retry/Bounded.antt =====
-- When a failed join is retried, and how often.
use meeting_bot_service.Prelude.{
  ℕ, ◌+◌, ◌<◌, true, false, String, Option, none, some, ◌≡◌, ◌⊎◌, ◌↔◌, is_empty, is_some, arith,
}
use meeting_bot_service.Lifecycle.Types.{CompletionReason}
use meeting_bot_service.Scheduling.Scheduler.{
  Request, Spec, Scheduler, Dispatched, schedule, make_job, resolve_execute_at,
}
use meeting_bot_service.Scheduling.Retry.{
  RetryPolicy, RetryOutcome, Action, scheduled_retry, is_transient, classify_retry, respawn_spec,
  retry_delay, on_join_failure,
}

abbrev pub action_of : Option RetryOutcome → Option Action
action_of none = none
action_of (some o) = some o.action

schedule_answers :
    (new_id : ℕ → String) (next_time : String → ℕ → ℕ) (dispatch : ℕ → Request → Dispatched)
    (s : Scheduler) (spec : Spec) (now t : ℕ)
    → is_empty spec.request.url ≡ false
    → spec.execute_at ≡ some t
    → is_some (schedule new_id next_time dispatch s spec now).1 ≡ true
unfolding schedule make_job resolve_execute_at
schedule_answers new_id next_time dispatch s spec now t url at = ground (arith, url, at)

module _ (new_id : ℕ → String) (next_time : String → ℕ → ℕ) (dispatch : ℕ → Request → Dispatched)
    (respawn_request : ℕ → ℕ → Request) (metadata : ℕ → ℕ → Option String → String) (s : Scheduler)
    (p : RetryPolicy) (meeting_id : ℕ) (reason : Option CompletionReason) (attempt now : ℕ) where
  -- Where the spawn request has a URL, a failed join is retried exactly if its reason is a timeout of
  -- the admission or a failure to join, and the retry is within the policy's number of attempts.
  retried_iff :
      is_empty (respawn_request meeting_id (attempt + 1)).url ≡ false
      → (action_of
            (on_join_failure new_id next_time dispatch respawn_request metadata s p meeting_id
              reason attempt now).1
          ≡ some scheduled_retry)
        ↔ (((reason ≡ some CompletionReason.awaiting_admission_timeout)
              ⊎ (reason ≡ some CompletionReason.join_failure))
            × (attempt + 1 < p.max_attempts))
  unfolding on_join_failure is_transient classify_retry respawn_spec
  retried_iff url =
      let spec =
        respawn_spec new_id next_time dispatch respawn_request metadata p meeting_id reason
          (attempt + 1) now in
      let answers =
        schedule_answers new_id next_time dispatch s spec now (now + retry_delay p (attempt + 1)) in
      (λ h. ground (arith, h), λ h. ground (arith, h, url, answers))
