-- ===== src/Tests/StopRuns.antt =====
-- The theorems on the stop of a user, the lists of the sweeps and a failed launch, for a user with one
-- active meeting and one new request.
use meeting_bot_service.Prelude.{
  ℕ, ◌≡◌, refl, true, false, String, Option, none, some, [], ◌∷◌, Dict, one_of, put, ◌==◌, All,
  ◌&&◌,
}
use meeting_bot_service.Spawn.Rows.{
  Meeting, Tables, Result, SpawnError, has_link, is_active, is_planned, is_terminal, clashes,
  clashes_any, is_indexed, find_row, find_last, list_sessions,
}
use meeting_bot_service.Spawn.Guarded.{claim_or_insert, insert_row, create_meeting_guarded}
use meeting_bot_service.Spawn.Service.{
  BotRequest, Environment, Launch, reused_row, meeting_data, acquire, request_bot,
  construct_meeting_url,
}
use meeting_bot_service.Spawn.Service.Orphans.{failed_launch_orphans}
use meeting_bot_service.Spawn.Stale.{is_listed, list_stale_nonterminal}
use meeting_bot_service.Spawn.Stale.Lists.{
  has_session, IsListedOnce, Tells, is_due, nonterminal_listing,
}
use meeting_bot_service.Spawn.Status.{find_active}
use meeting_bot_service.Spawn.StopRoute.{StopAnswer, refuse_stop, stop_bot}
use meeting_bot_service.Spawn.StopRoute.Stops.{Marks, stop_settles}

abbrev live : Meeting
live = record {
  id = 3;
  user_id = 7;
  platform = "google_meet";
  native_meeting_id = some "ccc-cccc-ccc";
  status = "active";
  bot_container_id = some "w3";
  start_time = some 100;
  end_time = none;
  fields = [];
}

abbrev tables : Tables
tables = record {
  meetings = live ∷ [];
  sessions =
      record { session_uid = "c3"; meeting_id = 3 }
      ∷ record { session_uid = "c4"; meeting_id = 3 }
      ∷ [];
  next_id = 4;
}

-- the row was written at 100
abbrev written : ℕ → Option ℕ
written id = some 100

nonterminal_listing_example :
    ((id : ℕ)
      → is_listed id (list_stale_nonterminal written 500 30 300 tables) ≡ (
          has_session id tables.sessions
          && is_due written 500 30 300 (find_row (λ m. m.id == id) tables.meetings)))
    × IsListedOnce (list_stale_nonterminal written 500 30 300 tables)
    × All (Tells tables.meetings tables.sessions) (list_stale_nonterminal written 500 30 300 tables)
nonterminal_listing_example = nonterminal_listing written 500 30 300 tables

stop_settles_example :
    let a = stop_bot true 600 tables 7 "google_meet" "ccc-cccc-ccc" in
    Marks true tables live a
    × (is_indexed a.tables.meetings ≡ true)
    × (stop_bot true 600 a.tables 7 "google_meet" "ccc-cccc-ccc"
        ≡ refuse_stop a.tables StopAnswer.no_active_meeting)
    × ((extra : Dict String)
        → create_meeting_guarded a.tables 7 "google_meet" "ccc-cccc-ccc" extra none
          ≡ Result.raised SpawnError.duplicate_meeting)
unfolding is_indexed clashes_any find_active find_last has_link is_active one_of list_sessions
stop_settles_example =
    stop_settles true 600 tables 7 "google_meet" "ccc-cccc-ccc" "c4" live refl (tt, tt)
      ((refl, tt), (tt, tt)) refl refl refl

abbrev request : BotRequest
request = record {
  user_id = 7;
  platform = "google_meet";
  native_meeting_id = "ddd-dddd-ddd";
  meeting_url = none;
  recording_enabled = false;
  transcribe_enabled = true;
  continue_meeting = false;
  max_concurrent = none;
  webhook_url = none;
  webhook_secret = none;
  webhook_events = none;
}

-- the runtime cannot start the workload
abbrev broken : Environment
broken = record {
  transcription = true;
  connection_id = "c5";
  workload_name = λ id connection. "mtg-4-c5";
  prepared = true;
  launch = Launch.failed;
  meanwhile = λ t. t;
  session_written = true;
  container_written = true;
  error_text = λ _. "runtime kernel returned 500";
}

abbrev mended : Environment
mended = record broken { launch = Launch.launched "w5" }

abbrev fresh : Meeting
fresh = record {
  id = 4;
  user_id = 7;
  platform = "google_meet";
  native_meeting_id = some "ddd-dddd-ddd";
  status = "requested";
  bot_container_id = none;
  start_time = none;
  end_time = none;
  fields =
      ("constructed_meeting_url", "https://meet.google.com/ddd-dddd-ddd")
      ∷ ("transcribe_enabled", "true")
      ∷ ("recording_enabled", "false")
      ∷ [];
}

failed_launch_orphans_example :
    let a = request_bot broken tables request in
    (a.outcome ≡ Result.raised SpawnError.spawn_failed)
    × (is_listed 4 (list_stale_nonterminal written 5000 30 300 a.tables) ≡ false)
    × ((request_bot mended a.tables request).outcome ≡ Result.raised SpawnError.duplicate_meeting)
unfolding is_indexed clashes_any clashes acquire reused_row create_meeting_guarded find_row
    find_last has_link is_active is_planned one_of claim_or_insert insert_row meeting_data
    construct_meeting_url put has_session is_terminal
failed_launch_orphans_example =
    failed_launch_orphans broken mended tables
      (record tables { meetings = live ∷ fresh ∷ []; next_id = 5 }) request fresh written 5000 30
      300 refl (tt, tt) (refl, refl) refl refl refl refl refl refl refl
