-- ===== src/Spawn/StopRoute.antt =====
-- lifecycle/stop_router.py: DELETE /bots/{platform}/{native_meeting_id}, where the user's id is
-- resolved. Publishing does not raise; the answer to the deletion of a workload is not used.
pub mod Marked
pub mod Marks
pub mod Stops
use meeting_bot_service.Prelude.{
  ℕ, Bool, true, false, ◌&&◌, not, String, Option, none, some, List, [], ◌∷◌, one_of, is_empty,
  if◌then◌else◌,
}
use meeting_bot_service.Lifecycle.Stop.{LeaveCommand, leave_command_channel, leave_command_payload}
use meeting_bot_service.Spawn.Rows.{Meeting, Tables, Result, ok, raised, SpawnError, list_sessions}
use meeting_bot_service.Spawn.Status.{StatusChange, find_active, update_meeting_status}

abbrev pub booting_statuses : List String
booting_statuses = "requested" ∷ "joining" ∷ "awaiting_admission" ∷ []

abbrev pub supported_platforms : List String
supported_platforms = "google_meet" ∷ "zoom" ∷ "teams" ∷ "jitsi" ∷ "browser_session" ∷ []

pub data StopAnswer : Type 0 where
  unsupported_platform : StopAnswer
  no_active_meeting : StopAnswer
  stopping : ℕ → StopAnswer
  server_error : SpawnError → StopAnswer

-- the tables, what is published, the workloads whose deletion is asked for, and the answer
pub record Stopped : Type 0 where
  pub tables : Tables
  pub published : List (String × LeaveCommand)
  pub deleted : List String
  pub answer : StopAnswer

-- sessions[-1]
abbrev pub or_last : Option String → String → Option String
or_last none u = some u
or_last (some v) u = some v

abbrev pub last_of : List String → Option String
last_of [] = none
last_of (u ∷ us) = or_last (last_of us) u

abbrev pub stop_change : StatusChange
stop_change = record {
  status = "stopping";
  completion_reason = none;
  failure_stage = none;
  extra = ("stop_requested", "true") ∷ [];
}

abbrev pub tables_of : Result (Tables × Option Meeting) → Result Tables
tables_of (ok (db, _)) = Result.ok db
tables_of (raised e) = Result.raised e

-- the row is marked by the last of its sessions
unfoldable pub mark_stopping : ℕ → Tables → Option String → Result Tables
mark_stopping now db none = Result.ok db
mark_stopping now db (some uid) = tables_of (update_meeting_status now db uid stop_change)

-- the workload of a bot that may not listen yet
abbrev pub torn_down : Bool → Meeting → List String
torn_down has_runtime m = elim m.bot_container_id [
  | none ↦ []
  | some w ↦
      if has_runtime && (not (is_empty w) && one_of m.status booting_statuses) then w ∷ [] else []
]

-- what follows the mark
unfoldable pub command_leave : Bool → Tables → Meeting → Result Tables → Stopped
command_leave has_runtime db m (raised e) = record {
  tables = db;
  published = [];
  deleted = [];
  answer = StopAnswer.server_error e;
}
command_leave has_runtime db m (ok db') = record {
  tables = db';
  published = (leave_command_channel m.id, leave_command_payload m.id) ∷ [];
  deleted = torn_down has_runtime m;
  answer = StopAnswer.stopping m.id;
}

unfoldable pub refuse_stop : Tables → StopAnswer → Stopped
refuse_stop db a = record { tables = db; published = []; deleted = []; answer = a }

-- the stop where the query for an active row has answered
abbrev pub stop_row : Bool → ℕ → Tables → Option Meeting → Stopped
stop_row has_runtime now db none = refuse_stop db StopAnswer.no_active_meeting
stop_row has_runtime now db (some m) =
    command_leave has_runtime db m (mark_stopping now db (last_of (list_sessions m.id db.sessions)))

-- stop_bot
unfoldable pub stop_bot : Bool → ℕ → Tables → ℕ → String → String → Stopped
stop_bot has_runtime now db user platform native =
    if one_of platform supported_platforms
    then stop_row has_runtime now db (find_active db user platform native)
    else refuse_stop db StopAnswer.unsupported_platform
