-- ===== src/Spawn/AutoJoin.antt =====
-- bot_spawn/auto_join.py: the sweep that sends bots into scheduled meetings. Times are seconds since
-- the epoch; `parse_iso` and `isoformat` stand for the standard library's datetime. What is fetched of
-- a user within a tick is fetched once.
pub mod Backoff
pub mod Counts
pub mod Ticks
use meeting_bot_service.Prelude.{
  ℕ, suc, ◌+◌, Bool, true, false, not, ◌&&◌, ◌||◌, String, Option, none, some, List, [], ◌∷◌, ◌++◌,
  ℤ, Dict, get, ltb, length, str_eq, is_empty, if◌then◌else◌,
}
use meeting_bot_service.Spawn.Rows.{
  Meeting, Tables, Result, ok, raised, SpawnError, list_scheduled, merge_meeting_data,
}
use meeting_bot_service.Spawn.Service.{BotRequest, Environment, RuntimeCall, Answer, request_bot}

-- the fields of the user's context that the sweep reads
pub record BotContext : Type 0 where
  pub max_concurrent : Option ℤ
  pub webhook_url : Option String
  pub webhook_secret : Option String
  pub webhook_events : Option String

abbrev pub no_context : BotContext
no_context = record {
  max_concurrent = none;
  webhook_url = none;
  webhook_secret = none;
  webhook_events = none;
}

pub record Settings : Type 0 where
  -- the standard library's text of a time, and its parse
  pub isoformat : ℕ → String
  pub parse_iso : String → Option ℕ
  pub lead_s : ℕ
  pub grace_s : ℕ
  pub retry_backoff_s : ℕ
  pub allow_uncapped : Bool
  -- the reason to refuse, where transcription is on and not configured
  pub gate : Option String
  -- none where no admin edge is configured; its answer is none where it cannot be reached
  pub fetch_bot_context : Option (ℕ → Option BotContext)
  -- what a request for the row meets
  pub environment : Meeting → Environment

-- _parse_iso of a value that may be missing
abbrev pub parse_field : (String → Option ℕ) → Option String → Option ℕ
parse_field parse none = none
parse_field parse (some s) = if is_empty s then none else parse s

abbrev pub is_off : Option String → Bool
is_off none = false
is_off (some v) = str_eq v "false"

abbrev pub in_window : Settings → ℕ → Option ℕ → Bool
in_window s now none = false
in_window s now (some at_time) =
    not (ltb (now + s.lead_s) at_time) && not (ltb (at_time + s.grace_s) now)

abbrev pub is_waiting : ℕ → Option ℕ → Bool
is_waiting now none = false
is_waiting now (some t) = ltb now t

abbrev pub has_native : Option String → Bool
has_native none = false
has_native (some n) = not (is_empty n)

-- the body of the loop of due_rows
unfoldable pub is_due : Settings → ℕ → Meeting → Bool
is_due s now m =
    not (is_off (get m.fields "auto_join"))
    && (has_native m.native_meeting_id && not (is_empty m.platform || str_eq m.platform "unknown"))
    && in_window s now (parse_field s.parse_iso (get m.fields "scheduled_at"))
    && not (is_waiting now (parse_field s.parse_iso (get m.fields "auto_join_next_retry")))

-- due_rows
unfoldable pub due_rows : Settings → ℕ → List Meeting → List Meeting
due_rows s now [] = []
due_rows s now (m ∷ ms) = let rest = due_rows s now ms in if is_due s now m then m ∷ rest else rest

-- the state of a tick: the tables, the calls of the runtime, and the counters
pub record Sweep : Type 0 where
  pub tables : Tables
  pub calls : List RuntimeCall
  pub spawned : ℕ
  pub already : ℕ
  pub errors : ℕ
  pub skipped_uncapped : ℕ

-- an exception that the sweep does not catch ends the tick
pub data Ticked : Type 0 where
  finished : Sweep → Ticked
  aborted : SpawnError → Sweep → Ticked

-- what _stamp_error writes
abbrev pub error_patch : Settings → ℕ → String → Dict (Option String)
error_patch s now message =
    ("auto_join_error", some message)
    ∷ ("auto_join_next_retry", some (s.isoformat (now + s.retry_backoff_s)))
    ∷ []

-- _stamp_error
unfoldable pub stamp_error : Settings → ℕ → Meeting → String → Sweep → Sweep
stamp_error s now m message w = record w {
  tables = merge_meeting_data w.tables m.id (error_patch s now message);
  errors = suc w.errors;
}

abbrev pub text_or_empty : Option String → String
text_or_empty none = ""
text_or_empty (some t) = t

-- the request for the row
abbrev pub request_of : BotContext → Meeting → BotRequest
request_of c m = record {
  user_id = m.user_id;
  platform = m.platform;
  native_meeting_id = text_or_empty m.native_meeting_id;
  meeting_url = get m.fields "constructed_meeting_url";
  recording_enabled = false;
  transcribe_enabled = true;
  continue_meeting = false;
  max_concurrent = c.max_concurrent;
  webhook_url = c.webhook_url;
  webhook_secret = c.webhook_secret;
  webhook_events = c.webhook_events;
}

abbrev pub is_stamped : Option String → Bool
is_stamped none = false
is_stamped (some v) = not (is_empty v)

-- the end of an earlier failure
unfoldable pub clear_error : Meeting → Tables → Tables
clear_error m db =
    if is_stamped (get m.fields "auto_join_error")
    then merge_meeting_data db m.id
        (("auto_join_error", none) ∷ ("auto_join_next_retry", none) ∷ [])
    else db

-- `str(e) or message`
abbrev pub text_of : Settings → Meeting → SpawnError → String → String
text_of s m e message =
    let text = (s.environment m).error_text e in if is_empty text then message else text

-- what the outcome of a request leads to
unfoldable pub take_outcome :
    Settings → ℕ → Meeting → Sweep → Result (Meeting × List String) → Ticked
take_outcome s now m w (ok _) =
    Ticked.finished (record w { tables = clear_error m w.tables; spawned = suc w.spawned })
take_outcome s now m w (raised SpawnError.duplicate_meeting) =
    Ticked.finished (record w { already = suc w.already })
take_outcome s now m w (raised SpawnError.max_bots_exceeded) = Ticked.finished (
    stamp_error s now m (text_of s m SpawnError.max_bots_exceeded "bot concurrency limit reached")
      w)
take_outcome s now m w (raised SpawnError.quota_exceeded) =
    Ticked.finished (
      stamp_error s now m (text_of s m SpawnError.quota_exceeded "bot concurrency limit reached") w)
take_outcome s now m w (raised SpawnError.spawn_failed) =
    Ticked.finished
      (stamp_error s now m (text_of s m SpawnError.spawn_failed "bot workload failed to start") w)
take_outcome s now m w (raised SpawnError.transcription_not_configured) =
    Ticked.aborted SpawnError.transcription_not_configured w
take_outcome s now m w (raised SpawnError.integrity_error) =
    Ticked.aborted SpawnError.integrity_error w
take_outcome s now m w (raised SpawnError.not_minted) = Ticked.aborted SpawnError.not_minted w

-- the request of the sweep for a row
unfoldable pub send_bot : Settings → ℕ → Meeting → BotContext → Sweep → Ticked
send_bot s now m c w =
    let a = request_bot (s.environment m) w.tables (request_of c m) in
    take_outcome s now m (record w { tables = a.tables; calls = w.calls ++ a.calls }) a.outcome

-- the row where the context of its user has been asked for
unfoldable pub with_context : Settings → ℕ → Meeting → Option BotContext → Sweep → Ticked
with_context s now m none w = Ticked.finished w
with_context s now m (some c) w = send_bot s now m c w

-- the row where nothing refuses
unfoldable pub resolve_cap :
    Settings → ℕ → Meeting → Option (ℕ → Option BotContext) → Sweep → Ticked
resolve_cap s now m none w =
    if s.allow_uncapped
    then send_bot s now m no_context w
    else Ticked.finished (record w { skipped_uncapped = suc w.skipped_uncapped })
resolve_cap s now m (some fetch) w = with_context s now m (fetch m.user_id) w

unfoldable pub pass_gate : Settings → ℕ → Meeting → Option String → Sweep → Ticked
pass_gate s now m (some reason) w = Ticked.finished (stamp_error s now m reason w)
pass_gate s now m none w = resolve_cap s now m s.fetch_bot_context w

-- the body of the loop over the due rows
unfoldable pub join_row : Settings → ℕ → Meeting → Sweep → Ticked
join_row s now m w = pass_gate s now m s.gate w

-- the rest of the loop, where the row has not ended it
abbrev pub next : (Sweep → Ticked) → Ticked → Ticked
next rest (Ticked.aborted e w) = Ticked.aborted e w
next rest (Ticked.finished w) = rest w

unfoldable pub join_rows : Settings → ℕ → List Meeting → Sweep → Ticked
join_rows s now [] w = Ticked.finished w
join_rows s now (m ∷ ms) w = next (join_rows s now ms) (join_row s now m w)

-- auto_join_tick
unfoldable pub auto_join_tick : Settings → ℕ → Tables → Ticked
auto_join_tick s now db =
    join_rows s now (due_rows s now (list_scheduled db.meetings)) (record {
      tables = db;
      calls = [];
      spawned = 0;
      already = 0;
      errors = 0;
      skipped_uncapped = 0;
    })
