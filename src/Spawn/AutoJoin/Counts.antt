-- ===== src/Spawn/AutoJoin/Counts.antt =====
-- How many rows a tick of auto-join counts.
use meeting_bot_service.Prelude.{
  ℕ, suc, ◌+◌, ◌≤◌, Option, none, some, List, [], ◌∷◌, ◌++◌, length, String, arith, if_split,
}
use meeting_bot_service.Spawn.Rows.{Meeting, Tables, Result, ok, raised, SpawnError, list_scheduled}
use meeting_bot_service.Spawn.Service.{request_bot}
use meeting_bot_service.Spawn.AutoJoin.{
  BotContext, no_context, Settings, Sweep, Ticked, due_rows, stamp_error, request_of, take_outcome,
  send_bot, with_context, resolve_cap, pass_gate, join_row, next, join_rows, auto_join_tick,
}

abbrev pub total : Sweep → ℕ
total w = w.spawned + w.already + w.errors + w.skipped_uncapped

-- the sweep that a tick ends with
abbrev pub last : Ticked → Sweep
last (Ticked.finished w) = w
last (Ticked.aborted e w) = w

-- a row adds at most one to the counters
abbrev Counts : Sweep → Ticked → Type 0
Counts w t = (total w ≤ total (last t)) × (total (last t) ≤ total w + 1)

take_outcome-Counts :
    (s : Settings) (now : ℕ) (m : Meeting) (w : Sweep) (r : Result (Meeting × List String))
    → Counts w (take_outcome s now m w r)
unfolding take_outcome stamp_error
take_outcome-Counts s now m w (ok x) = omega arith
take_outcome-Counts s now m w (raised SpawnError.duplicate_meeting) = omega arith
take_outcome-Counts s now m w (raised SpawnError.max_bots_exceeded) = omega arith
take_outcome-Counts s now m w (raised SpawnError.quota_exceeded) = omega arith
take_outcome-Counts s now m w (raised SpawnError.spawn_failed) = omega arith
take_outcome-Counts s now m w (raised SpawnError.transcription_not_configured) = omega arith
take_outcome-Counts s now m w (raised SpawnError.integrity_error) = omega arith
take_outcome-Counts s now m w (raised SpawnError.not_minted) = omega arith

send_bot-Counts :
    (s : Settings) (now : ℕ) (m : Meeting) (c : BotContext) (w : Sweep)
    → Counts w (send_bot s now m c w)
unfolding send_bot
send_bot-Counts s now m c w =
    let a = request_bot (s.environment m) w.tables (request_of c m) in
    take_outcome-Counts s now m (record w { tables = a.tables; calls = w.calls ++ a.calls })
      a.outcome

with_context-Counts :
    (s : Settings) (now : ℕ) (m : Meeting) (c : Option BotContext) (w : Sweep)
    → Counts w (with_context s now m c w)
unfolding with_context
with_context-Counts s now m none w = omega arith
with_context-Counts s now m (some c) w = send_bot-Counts s now m c w

resolve_cap-Counts :
    (s : Settings) (now : ℕ) (m : Meeting) (f : Option (ℕ → Option BotContext)) (w : Sweep)
    → Counts w (resolve_cap s now m f w)
unfolding resolve_cap
resolve_cap-Counts s now m none w =
    if_split (Counts w) s.allow_uncapped (send_bot s now m no_context w)
      (Ticked.finished (record w { skipped_uncapped = suc w.skipped_uncapped }))
      (λ _. send_bot-Counts s now m no_context w) (λ _. omega arith)
resolve_cap-Counts s now m (some fetch) w = with_context-Counts s now m (fetch m.user_id) w

pass_gate-Counts :
    (s : Settings) (now : ℕ) (m : Meeting) (gate : Option String) (w : Sweep)
    → Counts w (pass_gate s now m gate w)
unfolding pass_gate stamp_error
pass_gate-Counts s now m (some reason) w = omega arith
pass_gate-Counts s now m none w = resolve_cap-Counts s now m s.fetch_bot_context w

next_count :
    (rest : Sweep → Ticked) (w : Sweep) (n : ℕ) (t : Ticked)
    → Counts w t
    → ((w' : Sweep) → total (last (rest w')) ≤ total w' + n)
    → total (last (next rest t)) ≤ total w + suc n
next_count rest w n (Ticked.aborted e w') h k = omega (arith, h)
next_count rest w n (Ticked.finished w') h k = omega (arith, h, k w')

join_rows-count :
    (s : Settings) (now : ℕ) (ms : List Meeting) (w : Sweep)
    → total (last (join_rows s now ms w)) ≤ total w + length ms
unfolding join_rows join_row
join_rows-count s now [] w = omega arith
join_rows-count s now (m ∷ ms) w =
    next_count (join_rows s now ms) w (length ms) (join_row s now m w)
      (pass_gate-Counts s now m s.gate w) (join_rows-count s now ms)

-- A tick counts each due row once at most: what it reports as spawned, already there, failed and skipped
-- is together no more than the rows that are due.
tick_counts :
    (s : Settings) (now : ℕ) (db : Tables)
    → let w = last (auto_join_tick s now db) in
      w.spawned + w.already + w.errors + w.skipped_uncapped
      ≤ length (due_rows s now (list_scheduled db.meetings))
unfolding auto_join_tick
tick_counts s now db = omega (
  arith,
  join_rows-count s now (due_rows s now (list_scheduled db.meetings)) (record {
    tables = db;
    calls = [];
    spawned = 0;
    already = 0;
    errors = 0;
    skipped_uncapped = 0;
  }),
)
