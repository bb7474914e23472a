-- ===== src/Tests/LifecycleRuns.antt =====
-- The theorems on lifecycle/machine.py and lifecycle/stop.py, applied to concrete meetings.
use mathlib.Core.List.{Memᴰ}
use meeting_bot_service.Prelude.{
  true, false, String, Option, none, some, List, [], ◌∷◌, ◌≡◌, ◌⊎◌, inl, refl, get, put, pos,
  is_some,
}
use meeting_bot_service.Lifecycle.Types.{
  FailureStage, BotStatus, TransitionSource, parse_status, parse_reason,
}
use meeting_bot_service.Lifecycle.Machine.{
  LifecycleEvent, MeetingRecord, new_record, get_or_create, can_transition,
}
use meeting_bot_service.Lifecycle.Sink.{
  StatusChange, Outcome, changed, illegal_transition, step, advance, permits, apply_change, absorb,
  attribute, commit, keep_forensics, read_reason,
}
use meeting_bot_service.Lifecycle.Sink.Runs.{Call, deliver, reseed, call, run, terminal_absorbs}
use meeting_bot_service.Lifecycle.Sink.Course.{Every, IsTraced, run-IsTraced, completed_was_active}
use meeting_bot_service.Lifecycle.Sink.Attribution.{IsStageOf, failed_attribution}
use meeting_bot_service.Lifecycle.Stop.{stopped_step, user_stop_refused}

-- an event of the bot of connection "c1" with this status and this reason
abbrev report : String → Option String → LifecycleEvent
report status why = record {
  connection_id = "c1";
  status = status;
  container_id = none;
  reason = none;
  exit_code = some (pos 1);
  error_details = some "boom";
  completion_reason = why;
  bot_logs = none;
  bot_resources = none;
}

abbrev tell : String → Option String → Call
tell status why = deliver false (report status why) TransitionSource.bot_callback "t"

-- a whole meeting, told by the bot
abbrev whole_run : List Call
whole_run =
    tell "joining" none
    ∷ tell "awaiting_admission" none
    ∷ tell "active" none
    ∷ tell "completed" (some "left_alone")
    ∷ []

abbrev ended : MeetingRecord
ended = get_or_create (run [] whole_run) "c1"

abbrev in_meeting : MeetingRecord
in_meeting = get_or_create (run [] (tell "joining" none ∷ tell "active" none ∷ [])) "c1"

-- a change that stands for the ones that `step` does not return
abbrev no_change : StatusChange
no_change = record {
  change_record = new_record "none";
  old_status = none;
  new_status = BotStatus.joining;
  reason = none;
  transition_source = TransitionSource.creation;
  no_op = true;
}

abbrev change_of : Outcome → StatusChange
change_of (changed c) = c
change_of _ = no_change

terminal_absorbs_example :
    get
      (run (run [] whole_run) (
        deliver true (report "failed" none) TransitionSource.runtime_destroy "t"
        ∷ reseed "c1" (some "active")
        ∷ []))
      "c1"
    ≡ some ended
unfolding get run call apply_change get_or_create new_record step advance permits can_transition
    absorb attribute keep_forensics commit read_reason parse_status parse_reason put
terminal_absorbs_example =
    terminal_absorbs
      (deliver true (report "failed" none) TransitionSource.runtime_destroy "t"
        ∷ reseed "c1" (some "active")
        ∷ [])
      (run [] whole_run) "c1" ended refl refl

run-IsTraced_example : Every IsTraced (run [] whole_run)
unfolding get
run-IsTraced_example =
    run-IsTraced whole_run [] (refl, (refl, (refl, (refl, tt)))) (λ id rec found. cc)

completed_was_active_example : Memᴰ BotStatus.active ended.history
unfolding get run call apply_change get_or_create new_record step advance permits can_transition
    absorb attribute keep_forensics commit read_reason parse_status parse_reason put
completed_was_active_example =
    completed_was_active whole_run "c1" ended (refl, (refl, (refl, (refl, tt)))) refl refl

abbrev failed_step : MeetingRecord × Outcome
failed_step =
    step false in_meeting BotStatus.failed (report "failed" (some "evicted"))
      TransitionSource.bot_callback "t"

abbrev completed_step : MeetingRecord × Outcome
completed_step =
    step false in_meeting BotStatus.completed (report "completed" (some "left_alone"))
      TransitionSource.bot_callback "t"

failed_attribution_example :
    ((stage : FailureStage) × (failed_step.0.failure_stage ≡ some stage)
      × IsStageOf in_meeting.status stage)
    × (read_reason (some "evicted") ≡ some failed_step.0.completion_reason)
    × (((d : String) × ((report "failed" (some "evicted")).error_details ≡ some d)
          × (failed_step.0.error_details ≡ some d))
        ⊎ ((d : String) × ((report "failed" (some "evicted")).error_details ≡ none)
            × (in_meeting.error_details ≡ some d)
            × (failed_step.0.error_details ≡ some d))
        ⊎ (((report "failed" (some "evicted")).error_details ≡ none)
            × (in_meeting.error_details ≡ none)
            × (((some (pos 1) ≡ none) × (in_meeting.exit_code ≡ none))
                ⊎ (is_some failed_step.0.error_details ≡ true))))
unfolding get run call apply_change get_or_create new_record step advance permits can_transition
    absorb attribute keep_forensics commit read_reason parse_status parse_reason put
failed_attribution_example =
    failed_attribution false in_meeting (report "failed" (some "evicted"))
      TransitionSource.bot_callback "t" (change_of failed_step.1) refl refl

abbrev user_stopped : MeetingRecord × Outcome
user_stopped = stopped_step in_meeting (pos 0) "t"

user_stop_refused_example :
    ((stopped_step (new_record "c1") (pos 0) "t").0 ≡ new_record "c1")
    × ((stopped_step (new_record "c1") (pos 0) "t").1
        ≡ illegal_transition
            (new_record "c1").connection_id
            (new_record "c1").status
            BotStatus.failed)
unfolding new_record
user_stop_refused_example = user_stop_refused (new_record "c1") (pos 0) "t" (inl refl)
