-- ===== src/Lifecycle/Stop.antt =====
-- lifecycle/stop.py: the user-stop path, and the exit that it leads to.
use Prim.Native.String.{◌++◌ as append}
use meeting_bot_service.Prelude.{
  ℕ, true, false, String, Option, none, some, List, [], ◌∷◌, ◌++◌, ◌≡◌, refl, arith, ℤ, show_nat,
  ◌⊎◌, ◌↔◌,
}
use meeting_bot_service.Lifecycle.Types.{
  BotStatus, CompletionReason, TransitionSource, status_value, reason_value, parse_reason,
}
use meeting_bot_service.Lifecycle.Machine.{LifecycleEvent, MeetingRecord, in_terminal}
use meeting_bot_service.Lifecycle.Sink.{
  Outcome, illegal_transition, step, advance, attribute, absorb, keep_forensics, commit, permits,
  read_reason,
}

-- leave_command_channel
unfoldable pub leave_command_channel : ℕ → String
leave_command_channel meeting_id = append "bot_commands:meeting:" (show_nat meeting_id)

-- leave_command_payload, as the published JSON object
pub record LeaveCommand : Type 0 where
  pub action : String
  pub meeting_id : ℕ

unfoldable pub leave_command_payload : ℕ → LeaveCommand
leave_command_payload meeting_id = record { action = "leave"; meeting_id = meeting_id }

-- request_stop: the marked record, and what is published on which channel
unfoldable pub request_stop :
    MeetingRecord → List (String × LeaveCommand) → ℕ → MeetingRecord × List (String × LeaveCommand)
unfolding leave_command_channel leave_command_payload
request_stop rec published meeting_id = (
  record rec { stop_requested = true },
  published ++ (leave_command_channel meeting_id, leave_command_payload meeting_id) ∷ [],
)

-- classify_user_stop
unfoldable pub classify_user_stop : Option BotStatus → BotStatus × CompletionReason
classify_user_stop (some BotStatus.active) = (BotStatus.completed, CompletionReason.stopped)
classify_user_stop _ = (BotStatus.failed, CompletionReason.stopped)

-- stop_event_for
unfoldable pub stop_event_for : MeetingRecord → ℤ → LifecycleEvent
stop_event_for rec exit_code =
    let (status, reason) = classify_user_stop rec.status in
    record {
      connection_id = rec.connection_id;
      status = status_value status;
      container_id = none;
      reason = none;
      exit_code = some exit_code;
      error_details = none;
      completion_reason = some (reason_value reason);
      bot_logs = none;
      bot_resources = none;
    }

-- the status that the stop event of a record asks for
abbrev pub stop_target : MeetingRecord → BotStatus
stop_target rec = (classify_user_stop rec.status).0

module _ (rec : MeetingRecord) (code : ℤ) (now : String) where
  abbrev pub stopped_step : MeetingRecord × Outcome
  stopped_step =
      step false rec (stop_target rec) (stop_event_for rec code) TransitionSource.user_stop now

  reads_stopped : read_reason (some "stopped") ≡ some (some CompletionReason.stopped)
  unfolding read_reason parse_reason
  reads_stopped = refl

  -- From every status the bot can report before its end, the event that a user stop leads to is
  -- accepted: an active meeting completes, any other fails, and both carry the reason `stopped`
  -- and the driver `user_stop`.
  user_stop_attributed :
      (s : BotStatus)
      → rec.status ≡ some s
      → in_terminal s ≡ false
      → (stopped_step.0.status ≡ some (stop_target rec))
        × (in_terminal (stop_target rec) ≡ true)
        × ((stop_target rec ≡ BotStatus.completed) ↔ (s ≡ BotStatus.active))
        × (stopped_step.0.completion_reason ≡ some CompletionReason.stopped)
        × (stopped_step.0.last_transition_source ≡ some TransitionSource.user_stop)
        × (stopped_step.0.exit_code ≡ some code)
  unfolding step advance attribute keep_forensics commit absorb permits stop_event_for
      classify_user_stop reason_value
  user_stop_attributed s at live = ground (arith, reads_stopped)

  -- A stop of a meeting whose bot has not reported yet, or that has completed, leads to an event that
  -- the machine refuses: `failed` is no hop from there. The record stays as it is.
  pub user_stop_refused :
      (rec.status ≡ none) ⊎ (rec.status ≡ some BotStatus.completed)
      → (stopped_step.0 ≡ rec)
        × (stopped_step.1 ≡ illegal_transition rec.connection_id rec.status BotStatus.failed)
  unfolding step permits stop_event_for classify_user_stop
  user_stop_refused h = ground arith
