-- ===== src/Lifecycle/Machine.antt =====
-- lifecycle/machine.py: the transition table, the rehydration table, the event, the record, and
-- the in-memory store.
use mathlib.Core.Option
use meeting_bot_service.Prelude.{
  Bool, true, false, ◌||◌, String, Option, none, some, List, [], ◌∷◌, Dict, get, put, str_eq, ℤ,
  if◌then◌else◌,
}
use meeting_bot_service.Lifecycle.Types.{
  BotStatus, CompletionReason, FailureStage, TransitionSource, status_eq,
}

-- LEGAL_TRANSITIONS.get(frm, frozenset())
unfoldable pub legal_transitions : Option BotStatus → List BotStatus
legal_transitions none = BotStatus.joining ∷ []
legal_transitions (some BotStatus.joining) =
    BotStatus.awaiting_admission ∷ BotStatus.active ∷ BotStatus.failed ∷ []
legal_transitions (some BotStatus.awaiting_admission) =
    BotStatus.active ∷ BotStatus.needs_help ∷ BotStatus.failed ∷ []
legal_transitions (some BotStatus.needs_help) = BotStatus.active ∷ BotStatus.failed ∷ []
legal_transitions (some BotStatus.active) = BotStatus.completed ∷ BotStatus.failed ∷ []
legal_transitions (some BotStatus.completed) = []
legal_transitions (some BotStatus.failed) = []

abbrev status_in : BotStatus → List BotStatus → Bool
status_in s [] = false
status_in s (t ∷ ts) = status_eq s t || status_in s ts

-- can_transition
unfoldable pub can_transition : Option BotStatus → BotStatus → Bool
unfolding legal_transitions
can_transition frm to = status_in to (legal_transitions frm)

-- `status in _TERMINAL`
abbrev pub in_terminal : BotStatus → Bool
in_terminal BotStatus.completed = true
in_terminal BotStatus.failed = true
in_terminal _ = false

-- MeetingRecord.is_terminal
abbrev pub is_terminal_status : Option BotStatus → Bool
is_terminal_status none = false
is_terminal_status (some s) = in_terminal s

-- bot_status_from_persisted, with _PERSISTED_STATUS_TO_BOTSTATUS
unfoldable pub bot_status_from_persisted : Option String → Option BotStatus
bot_status_from_persisted none = none
bot_status_from_persisted (some s) =
    if str_eq s "requested"
    then none
    else if str_eq s "joining"
    then some BotStatus.joining
    else if str_eq s "awaiting_admission"
    then some BotStatus.awaiting_admission
    else if str_eq s "needs_help"
    then some BotStatus.needs_help
    else if str_eq s "active"
    then some BotStatus.active
    else if str_eq s "stopping"
    then some BotStatus.active
    else if str_eq s "completed"
    then some BotStatus.completed
    else if str_eq s "failed"
    then some BotStatus.failed
    else none

-- _STATUS_TO_FAILURE_STAGE.get(frm, FailureStage.ACTIVE)
unfoldable pub failure_stage_from : Option BotStatus → FailureStage
failure_stage_from none = FailureStage.requested
failure_stage_from (some BotStatus.joining) = FailureStage.joining
failure_stage_from (some BotStatus.awaiting_admission) = FailureStage.awaiting_admission
failure_stage_from (some BotStatus.needs_help) = FailureStage.awaiting_admission
failure_stage_from (some BotStatus.active) = FailureStage.active
failure_stage_from (some _) = FailureStage.active

-- The validated lifecycle.v1 event; `none` is an absent or null key.
pub record LifecycleEvent : Type 0 where
  pub connection_id : String
  pub status : String
  pub container_id : Option String
  pub reason : Option String
  pub exit_code : Option ℤ
  pub error_details : Option String
  pub completion_reason : Option String
  pub bot_logs : Option (List String)
  pub bot_resources : Option (Dict String)

-- One entry of the `status_transition` trail, with the wire texts that the source stores.
pub record TrailEntry : Type 0 where
  pub from_status : Option String
  pub to_status : String
  pub timestamp : String
  pub source : String
  pub reason : Option String
  pub completion_reason : Option String
  pub failure_stage : Option String
  pub error_details : Option String

pub record MeetingRecord : Type 0 where
  pub connection_id : String
  pub status : Option BotStatus
  pub container_id : Option String
  pub completion_reason : Option CompletionReason
  pub failure_stage : Option FailureStage
  pub reason : Option String
  pub error_details : Option String
  pub exit_code : Option ℤ
  pub history : List BotStatus
  pub status_transition : List TrailEntry
  pub bot_logs : Option (List String)
  pub bot_logs_truncated : Bool
  pub bot_resources : Option (Dict String)
  pub stop_requested : Bool
  pub last_transition_source : Option TransitionSource

-- MeetingRecord(connection_id=…)
unfoldable pub new_record : String → MeetingRecord
new_record id = record {
  connection_id = id;
  status = none;
  container_id = none;
  completion_reason = none;
  failure_stage = none;
  reason = none;
  error_details = none;
  exit_code = none;
  history = [];
  status_transition = [];
  bot_logs = none;
  bot_logs_truncated = false;
  bot_resources = none;
  stop_requested = false;
  last_transition_source = none;
}

-- MeetingStore, keyed by connection id
abbrev pub MeetingStore : Type 0
MeetingStore = Dict MeetingRecord

-- The record that `get_or_create` returns. The source inserts a new one into the store at once;
-- every operation below ends by writing the record back under its key.
unfoldable pub get_or_create : MeetingStore → String → MeetingRecord
unfolding new_record
get_or_create store id = Option.get_or (get store id) (new_record id)

-- the `if seeded is not None` of `rehydrate`
unfoldable pub seed : MeetingRecord → Option BotStatus → MeetingRecord
seed rec none = rec
seed rec (some s) = record rec { status = some s }

-- the `if rec.status is None` of `rehydrate`
unfoldable pub reconcile_seed : Option BotStatus → MeetingRecord → Option String → MeetingRecord
unfolding seed
reconcile_seed none rec persisted = seed rec (bot_status_from_persisted persisted)
reconcile_seed (some s) rec persisted = rec

-- MeetingStore.rehydrate
unfoldable pub rehydrate : MeetingStore → String → Option String → MeetingStore
unfolding reconcile_seed
rehydrate store id persisted =
    let rec = get_or_create store id in put store id (reconcile_seed rec.status rec persisted)
