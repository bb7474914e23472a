-- ===== src/Spawn/Service.antt =====
-- bot_spawn/service.py: `request_bot`, the flow of POST /bots. The environment answers for what the
-- service calls: the transcription backend, the runtime kernel, the database where a write may fail,
-- and the other requests that change the tables while the runtime works. Minting the token and
-- building the invocation either succeed or raise.
pub mod Capacity
pub mod Orphans
pub mod Outcomes
use Prim.Native.String as Text
use meeting_bot_service.Prelude.{
  ℕ, Bool, true, false, not, ◌&&◌, ◌||◌, ◌==◌, str_eq, String, Option, none, some, List, [], ◌∷◌,
  ◌++◌, ℤ, Dict, put, one_of, is_empty, is_some, if◌then◌else◌,
}
use meeting_bot_service.Spawn.Rows.{
  Meeting, Tables, Result, ok, raised, SpawnError, terminal_statuses, find_row, find_latest,
  reopen_meeting, count_active_bots, create_session, list_sessions, set_bot_container,
  get_status_by_session, is_terminal,
}
use meeting_bot_service.Spawn.Guarded.{at_cap, is_depleted, create_meeting_guarded}

pub record BotRequest : Type 0 where
  pub user_id : ℕ
  pub platform : String
  pub native_meeting_id : String
  pub meeting_url : Option String
  pub recording_enabled : Bool
  pub transcribe_enabled : Bool
  pub continue_meeting : Bool
  pub max_concurrent : Option ℤ
  pub webhook_url : Option String
  pub webhook_secret : Option String
  pub webhook_events : Option String

-- the answer of create_workload
pub data Launch : Type 0 where
  launched : String → Launch
  over_quota : Launch
  failed : Launch

pub record Environment : Type 0 where
  -- a transcription backend is configured
  pub transcription : Bool
  -- uuid4 of the connection, and the id that the workload is asked for
  pub connection_id : String
  pub workload_name : ℕ → String → String
  -- the token is minted, the invocation and the spec conform
  pub prepared : Bool
  pub launch : Launch
  -- the tables after the launch, where other requests have run
  pub meanwhile : Tables → Tables
  -- the writes of the session and of the container id succeed
  pub session_written : Bool
  pub container_written : Bool
  -- str of an exception that is raised
  pub error_text : SpawnError → String

-- a call of the runtime kernel
pub data RuntimeCall : Type 0 where
  create_workload : String → RuntimeCall
  delete_workload : String → RuntimeCall

pub record Answer : Type 0 where
  pub tables : Tables
  pub calls : List RuntimeCall
  pub outcome : Result (Meeting × List String)

-- construct_meeting_url
unfoldable pub construct_meeting_url : String → String → Option String
construct_meeting_url platform native =
    if str_eq platform "google_meet"
    then some (Text.◌++◌ "https://meet.google.com/" native)
    else if str_eq platform "teams"
    then some (Text.◌++◌ "https://teams.microsoft.com/l/meetup-join/" native)
    else none

abbrev pub or_made : Option String → Option String → Option String
or_made none o = o
or_made (some s) o = if is_empty s then o else some s

-- a key of `meeting_data` that is set where its value is
abbrev pub put_some : Dict String → String → Option String → Dict String
put_some d k none = d
put_some d k (some v) = if is_empty v then d else put d k v

abbrev pub json_bool : Bool → String
json_bool true = "true"
json_bool false = "false"

abbrev pub is_set : Option String → Bool
is_set none = false
is_set (some s) = not (is_empty s)

-- `meeting_data`
unfoldable pub meeting_data : BotRequest → Dict String
unfolding construct_meeting_url
meeting_data r =
    let url =
      put_some [] "constructed_meeting_url"
        (or_made r.meeting_url (construct_meeting_url r.platform r.native_meeting_id)) in
    let flags =
      put (put url "transcribe_enabled" (json_bool r.transcribe_enabled)) "recording_enabled"
        (json_bool r.recording_enabled) in
    if is_set r.webhook_url
    then put_some
        (put_some (put_some flags "webhook_url" r.webhook_url) "webhook_secret" r.webhook_secret)
        "webhook_events" r.webhook_events
    else flags

-- the terminal row that continue_meeting reuses
unfoldable pub reused_row : Tables → BotRequest → Option Meeting
reused_row db r =
    if r.continue_meeting
    then (elim (find_latest db r.user_id r.platform r.native_meeting_id) [
      | none ↦ none
      | some m ↦ if is_terminal m then some m else none
    ])
    else none

-- the row of the run: reopened, claimed or new
unfoldable pub acquire : Tables → BotRequest → Result (Tables × Meeting)
acquire db r = elim (reused_row db r) [
  | some m ↦
      if is_depleted r.max_concurrent
        || at_cap (count_active_bots db r.user_id (some m.id)) r.max_concurrent
      then Result.raised SpawnError.max_bots_exceeded
      else reopen_meeting db m
  | none ↦
      create_meeting_guarded db r.user_id r.platform r.native_meeting_id (meeting_data r)
        r.max_concurrent
]

-- the statuses of a stop that raced the spawn
abbrev pub raced_statuses : List String
raced_statuses = "stopping" ∷ "completed" ∷ "failed" ∷ []

abbrev pub is_raced : Option String → Bool
is_raced none = false
is_raced (some s) = one_of s raced_statuses

abbrev pub named : String → String → String
named asked answered = if is_empty answered then asked else answered

-- the end of the flow: a stop that raced the spawn tears the workload down
unfoldable pub settle_race : Environment → Tables → List RuntimeCall → Meeting → String → Answer
settle_race env db calls row workload =
    let outcome = Result.ok (row, list_sessions row.id db.sessions) in
    if is_raced (get_status_by_session db env.connection_id)
    then record {
      tables = db;
      calls = calls ++ RuntimeCall.delete_workload workload ∷ [];
      outcome = outcome;
    }
    else record { tables = db; calls = calls; outcome = outcome }

-- the compensation of a failed write
abbrev pub compensate : Tables → List RuntimeCall → String → Answer
compensate db calls workload = record {
  tables = db;
  calls = calls ++ RuntimeCall.delete_workload workload ∷ [];
  outcome = Result.raised SpawnError.spawn_failed;
}

-- the row as it is after the write of the container id; a row that is gone is an exception
unfoldable pub found_row :
    Environment → Tables → Tables → List RuntimeCall → String → Option Meeting → Answer
found_row env db db' calls workload none = compensate db calls workload
found_row env db db' calls workload (some row) = settle_race env db' calls row workload

-- the container id
unfoldable pub write_container : Environment → Tables → List RuntimeCall → ℕ → String → Answer
write_container env db calls id workload =
    let db' = set_bot_container db id workload in
    if env.container_written
    then found_row env db db' calls workload (find_row (λ m. m.id == id) db'.meetings)
    else compensate db calls workload

-- the session and the container id; where a write fails the workload is torn down
unfoldable pub write_back : Environment → Tables → List RuntimeCall → Meeting → String → Answer
write_back env db calls m workload =
    if env.session_written
    then write_container env (create_session db m.id env.connection_id) calls m.id workload
    else compensate db calls workload

-- the flow once the runtime has answered
unfoldable pub after_launch : Environment → Tables → Meeting → String → Launch → Answer
after_launch env db m asked Launch.over_quota = record {
  tables = db;
  calls = RuntimeCall.create_workload asked ∷ [];
  outcome = Result.raised SpawnError.quota_exceeded;
}
after_launch env db m asked Launch.failed = record {
  tables = db;
  calls = RuntimeCall.create_workload asked ∷ [];
  outcome = Result.raised SpawnError.spawn_failed;
}
after_launch env db m asked (Launch.launched name) =
    write_back env db (RuntimeCall.create_workload asked ∷ []) m (named asked name)

-- the token, the invocation, and the launch of the workload for the row
unfoldable pub spawn_workload : Environment → Tables → Meeting → Answer
spawn_workload env db m =
    if env.prepared
    then after_launch env (env.meanwhile db) m (env.workload_name m.id env.connection_id) env.launch
    else record { tables = db; calls = []; outcome = Result.raised SpawnError.not_minted }

-- the flow once the row is there, or its creation has raised
unfoldable pub continue_with : Environment → Tables → Result (Tables × Meeting) → Answer
continue_with env db (raised e) = record { tables = db; calls = []; outcome = Result.raised e }
continue_with env db (ok (db', m)) = spawn_workload env db' m

-- request_bot
unfoldable pub request_bot : Environment → Tables → BotRequest → Answer
request_bot env db r =
    if r.transcribe_enabled && not env.transcription
    then record {
      tables = db;
      calls = [];
      outcome = Result.raised SpawnError.transcription_not_configured;
    }
    else continue_with env db (acquire db r)
