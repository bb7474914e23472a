-- ===== src/Tests/SpawnRuns.antt =====
-- The theorems on meeting_api/bot_spawn/, for a user with a meeting that has ended, one that is planned
-- and one that is active.
use meeting_bot_service.Prelude.{
  ℕ, ◌≤◌, ◌≡◌, refl, true, false, String, none, some, [], ◌∷◌, pos, get, remove, one_of, str_eq,
  ◌==◌, All, inl, arith, if◌then◌else◌,
}
use meeting_bot_service.Spawn.Rows.{
  Meeting, Tables, SpawnError, has_link, is_active, is_terminal, clashes, clashes_any, is_indexed,
  find_last, modify, save_rows, find_latest, reopen_meeting, counts, count_rows, count_active_bots,
  list_scheduled,
}
use meeting_bot_service.Spawn.Guarded.{create_meeting_guarded}
use meeting_bot_service.Spawn.Rows.Links.{Creates, guarded_decides}
use meeting_bot_service.Spawn.Service.{
  BotRequest, Environment, Launch, reused_row, acquire, request_bot,
}
use meeting_bot_service.Spawn.Service.Capacity.{acquire_cap}
use meeting_bot_service.Spawn.Service.Outcomes.{Accounts, request-Accounts}
use meeting_bot_service.Spawn.AutoJoin.{
  Settings, Sweep, Ticked, no_context, is_due, due_rows, stamp_error, join_rows, auto_join_tick,
}
use meeting_bot_service.Spawn.AutoJoin.Ticks.{fresh_sweep, tick_fails_closed, tick_aborts}
use meeting_bot_service.Spawn.AutoJoin.Backoff.{stamp_backs_off}

abbrev row : ℕ → String → String → Meeting
row id native status = record {
  id = id;
  user_id = 7;
  platform = "google_meet";
  native_meeting_id = some native;
  status = status;
  bot_container_id = none;
  start_time = none;
  end_time = none;
  fields = ("scheduled_at", "1000") ∷ [];
}

abbrev tables : Tables
tables = record {
  meetings =
      row 1 "aaa-aaaa-aaa" "completed"
      ∷ row 2 "bbb-bbbb-bbb" "scheduled"
      ∷ row 3 "ccc-cccc-ccc" "active"
      ∷ [];
  sessions = [];
  next_id = 4;
}

abbrev request : String → BotRequest
request native = record {
  user_id = 7;
  platform = "google_meet";
  native_meeting_id = native;
  meeting_url = none;
  recording_enabled = false;
  transcribe_enabled = true;
  continue_meeting = true;
  max_concurrent = some (pos 2);
  webhook_url = none;
  webhook_secret = none;
  webhook_events = none;
}

abbrev environment : Environment
environment = record {
  transcription = true;
  connection_id = "c1";
  workload_name = λ id connection. "mtg-1-c1";
  prepared = true;
  launch = Launch.launched "w1";
  meanwhile = λ t. t;
  session_written = true;
  container_written = true;
  error_text = λ _. "";
}

-- the ended meeting is reopened, which fills the cap
after_reopen : Tables
after_reopen = record tables {
  meetings =
      (record (row 1 "aaa-aaaa-aaa" "requested") { bot_container_id = none })
      ∷ row 2 "bbb-bbbb-bbb" "scheduled"
      ∷ row 3 "ccc-cccc-ccc" "active"
      ∷ [];
}

guarded_decides_example :
    Creates tables 7 "google_meet" "ccc-cccc-ccc"
      (create_meeting_guarded tables 7 "google_meet" "ccc-cccc-ccc" [] none)
unfolding is_indexed clashes_any clashes is_terminal has_link one_of
guarded_decides_example =
    guarded_decides tables 7 "google_meet" "ccc-cccc-ccc" [] refl
      ((refl, (refl, tt)), ((refl, tt), (tt, tt)))

acquire_cap_example : count_active_bots after_reopen 7 none ≤ 2
unfolding after_reopen acquire reused_row find_latest find_last has_link is_terminal one_of
    count_active_bots count_rows counts is_active reopen_meeting modify save_rows is_indexed
    clashes_any clashes remove
acquire_cap_example =
    acquire_cap tables after_reopen (request "aaa-aaaa-aaa") (row 1 "aaa-aaaa-aaa" "requested") 2
      ((refl, (refl, tt)), ((refl, tt), (tt, tt))) refl refl

request-Accounts_example :
    Accounts environment tables (request_bot environment tables (request "aaa-aaaa-aaa"))
request-Accounts_example = request-Accounts environment tables (request "aaa-aaaa-aaa")

abbrev settings : Settings
settings = record {
  isoformat = λ t. "1310";
  parse_iso =
      λ s. if str_eq s "1000" then some 1000 else if str_eq s "1310" then some 1310 else none;
  lead_s = 60;
  grace_s = 600;
  retry_backoff_s = 300;
  allow_uncapped = false;
  gate = none;
  fetch_bot_context = some (λ user. some no_context);
  environment = λ m. record environment { transcription = false };
}

tick_fails_closed_example :
    (w : Sweep) × (auto_join_tick (record settings { fetch_bot_context = none }) 1010 tables
      ≡ Ticked.finished w)
    × (w.calls ≡ [])
tick_fails_closed_example =
    tick_fails_closed (record settings { fetch_bot_context = none }) 1010 tables (inl (refl, refl))

tick_aborts_example :
    (w : Sweep) × (auto_join_tick settings 1010 tables
      ≡ Ticked.aborted SpawnError.transcription_not_configured w)
    × (w.tables ≡ tables)
    × (w.calls ≡ [])
unfolding due_rows is_due list_scheduled get join_rows
tick_aborts_example =
    tick_aborts settings 1010 tables [] [] (row 2 "bbb-bbbb-bbb" "scheduled") (fresh_sweep tables)
      (λ user. some no_context) no_context refl refl refl refl refl refl

stamp_backs_off_example :
    All
      (λ r. (r.id == 2) ≡ false)
      (due_rows settings 1200 (
        list_scheduled
          (stamp_error settings 1010 (row 2 "bbb-bbbb-bbb" "scheduled") "quota" (record {
            tables = tables;
            calls = [];
            spawned = 0;
            already = 0;
            errors = 0;
            skipped_uncapped = 0;
          })).tables.meetings))
stamp_backs_off_example =
    stamp_backs_off settings 1010 1200 (row 2 "bbb-bbbb-bbb" "scheduled") "quota"
      (record {
        tables = tables;
        calls = [];
        spawned = 0;
        already = 0;
        errors = 0;
        skipped_uncapped = 0;
      })
      refl refl (omega arith)
