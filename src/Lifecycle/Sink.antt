-- ===== src/Lifecycle/Sink.antt =====
-- lifecycle/machine.py: `LifecycleSink.apply_change`, which drives one event through the machine.
pub mod Effects
pub mod Runs
pub mod Attribution
pub mod Course
pub mod Safety
use Prim.Native.String.{◌++◌ as append}
use mathlib.Core.Option
use meeting_bot_service.Prelude.{
  Bool, true, false, ◌&&◌, ◌||◌, not, String, Option, none, some, List, [], ◌∷◌, ◌++◌, put,
  is_empty, is_some, ℤ, show_int, if◌then◌else◌,
}
use meeting_bot_service.Lifecycle.Types.{
  BotStatus, CompletionReason, TransitionSource, opt_status_eq, status_value, parse_status,
  reason_value, parse_reason, stage_value, source_value,
}
use meeting_bot_service.Lifecycle.Logs.{trim_bot_logs}
use meeting_bot_service.Lifecycle.Machine.{
  LifecycleEvent, TrailEntry, MeetingRecord, MeetingStore, can_transition, in_terminal,
  is_terminal_status, failure_stage_from, get_or_create,
}

-- StatusChange
pub record StatusChange : Type 0 where
  pub change_record : MeetingRecord
  pub old_status : Option BotStatus
  pub new_status : BotStatus
  pub reason : Option String
  pub transition_source : TransitionSource
  pub no_op : Bool

-- What `apply_change` returns or raises: `value_error` is the ValueError of an enum's constructor.
pub data Outcome : Type 0 where
  changed : StatusChange → Outcome
  illegal_transition : String → Option BotStatus → BotStatus → Outcome
  value_error : Outcome

-- `event.get(key)` as a condition
unfoldable pub truthy_text : Option String → Option String
truthy_text none = none
truthy_text (some s) = if is_empty s then none else some s

unfoldable pub truthy_list {ℓ} : {A : Type ℓ} → Option (List A) → Option (List A)
truthy_list none = none
truthy_list (some []) = none
truthy_list (some (x ∷ xs)) = some (x ∷ xs)

abbrev pub or_keep {ℓ} : {A : Type ℓ} → Option A → Option A → Option A
or_keep none old = old
or_keep (some a) old = some a

-- the four `if event.get(…)` assignments
unfoldable pub absorb : MeetingRecord → LifecycleEvent → MeetingRecord
unfolding truthy_text
absorb rec e = record rec {
  container_id = or_keep (truthy_text e.container_id) rec.container_id;
  reason = or_keep e.reason rec.reason;
  exit_code = or_keep e.exit_code rec.exit_code;
  error_details = or_keep e.error_details rec.error_details;
}

-- `CompletionReason(raw) if raw else None`; the outer `none` is the ValueError
unfoldable pub read_reason : Option String → Option (Option CompletionReason)
unfolding truthy_text
read_reason raw = elim (truthy_text raw) [
  | none ↦ some none
  | some t ↦ Option.map some (parse_reason t)
]

abbrev pub text_or_none : Option String → String
text_or_none none = "None"
text_or_none (some s) = s

abbrev pub int_or_none : Option ℤ → String
int_or_none none = "None"
int_or_none (some n) = show_int n

-- the `error_details` that a failed exit gets when the event brings none
unfoldable pub default_details : MeetingRecord → Option String
unfolding truthy_text
default_details rec =
    if not (is_some rec.error_details)
      && (is_some rec.exit_code || is_some (truthy_text rec.reason))
    then some (
        append "Bot exited with code "
          (append (int_or_none rec.exit_code) (append "; reason: " (text_or_none rec.reason))))
    else rec.error_details

-- the `completion_reason` of a terminal, and the details of a failed one
unfoldable pub close_failed : MeetingRecord → Option CompletionReason → MeetingRecord
unfolding default_details
close_failed rec why = record rec { completion_reason = why; error_details = default_details rec }

-- The `if to is COMPLETED … elif to is FAILED`. `false` beside the record is the ValueError; what
-- was assigned before it stays.
unfoldable pub attribute :
    BotStatus → Option BotStatus → MeetingRecord → Option String → MeetingRecord × Bool
unfolding close_failed
attribute BotStatus.completed frm rec raw = elim (read_reason raw) [
  | none ↦ (rec, false)
  | some why ↦ (record rec { completion_reason = why }, true)
]
attribute BotStatus.failed frm rec raw =
    let staged = record rec { failure_stage = some (failure_stage_from frm) } in
    elim (read_reason raw) [ none ↦ (staged, false) | some why ↦ (close_failed staged why, true) ]
attribute _ frm rec raw = (rec, true)

-- terminal forensics
unfoldable pub keep_logs : MeetingRecord → Option (List String) → MeetingRecord
keep_logs rec none = rec
keep_logs rec (some lines) =
    let (kept, cut) = trim_bot_logs lines in
    record rec { bot_logs = some kept; bot_logs_truncated = cut }

unfoldable pub keep_forensics : BotStatus → MeetingRecord → LifecycleEvent → MeetingRecord
unfolding keep_logs truthy_list
keep_forensics to rec e =
    if in_terminal to
    then (let logged = keep_logs rec (truthy_list e.bot_logs) in
        record logged {
          bot_resources = or_keep (truthy_list e.bot_resources) logged.bot_resources;
        })
    else rec

-- the trail entry of one hop
unfoldable pub trail_entry :
    Option BotStatus → BotStatus → MeetingRecord → TransitionSource → String → TrailEntry
trail_entry frm to rec source now = record {
  from_status = Option.map status_value frm;
  to_status = status_value to;
  timestamp = now;
  source = source_value source;
  reason = if in_terminal to then rec.reason else none;
  completion_reason = Option.map reason_value rec.completion_reason;
  failure_stage = Option.map stage_value rec.failure_stage;
  error_details = rec.error_details;
}

-- the status, the history, the driver and the trail
unfoldable pub commit :
    Option BotStatus → BotStatus → MeetingRecord → TransitionSource → String → MeetingRecord
unfolding trail_entry
commit frm to rec source now = record rec {
  status = some to;
  history = rec.history ++ to ∷ [];
  last_transition_source = some source;
  status_transition = rec.status_transition ++ trail_entry frm to rec source now ∷ [];
}

-- what follows the legality tests
unfoldable pub advance :
    MeetingRecord → BotStatus → LifecycleEvent → TransitionSource → String → MeetingRecord × Outcome
unfolding absorb attribute keep_forensics commit
advance rec to e source now =
    let (noted, fine) = attribute to rec.status (absorb rec e) e.completion_reason in
    let done = commit rec.status to (keep_forensics to noted e) source now in
    if fine
    then (
      done,
      changed (record {
        change_record = done;
        old_status = rec.status;
        new_status = to;
        reason = done.reason;
        transition_source = source;
        no_op = false;
      }),
    )
    else (noted, value_error)

-- `force_terminal_on_destroy and to in _TERMINAL`, or a legal edge
unfoldable pub permits : Bool → Option BotStatus → BotStatus → Bool
unfolding can_transition
permits force frm to = force && in_terminal to || can_transition frm to

-- `apply_change` on the record of the event
unfoldable pub step :
    Bool
    → MeetingRecord
    → BotStatus
    → LifecycleEvent
    → TransitionSource
    → String
    → MeetingRecord × Outcome
unfolding advance permits
step force rec to e source now =
    if opt_status_eq rec.status to
    then (
      rec,
      changed (record {
        change_record = rec;
        old_status = rec.status;
        new_status = to;
        reason = rec.reason;
        transition_source = source;
        no_op = true;
      }),
    )
    else if is_terminal_status rec.status
    then (rec, illegal_transition e.connection_id rec.status to)
    else if permits force rec.status to
    then advance rec to e source now
    else (rec, illegal_transition e.connection_id rec.status to)

-- LifecycleSink.apply_change: `BotStatus(event["status"])` may raise before the store is touched.
unfoldable pub apply_change :
    Bool → MeetingStore → LifecycleEvent → TransitionSource → String → MeetingStore × Outcome
unfolding step get_or_create
apply_change force store e source now = elim (parse_status e.status) [
  | none ↦ (store, value_error)
  | some to ↦
      let (rec, out) = step force (get_or_create store e.connection_id) to e source now in
      (put store e.connection_id rec, out)
]
