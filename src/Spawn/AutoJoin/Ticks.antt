-- ===== src/Spawn/AutoJoin/Ticks.antt =====
-- What a tick of the sweep does to the due rows.
use meeting_bot_service.Prelude.{
  ℕ, suc, ◌≡◌, refl, ap, ◌∙◌, false, not, Option, none, some, List, [], ◌∷◌, ◌++◌, ◌⊎◌, String, inl,
  inr, arith, if◌then◌else◌,
}
use meeting_bot_service.Spawn.Rows.{Meeting, Tables, Result, SpawnError, list_scheduled}
use meeting_bot_service.Spawn.Service.{RuntimeCall, request_bot, continue_with, acquire}
use meeting_bot_service.Spawn.AutoJoin.{
  BotContext, Settings, Sweep, Ticked, due_rows, stamp_error, request_of, take_outcome, send_bot,
  with_context, resolve_cap, pass_gate, join_row, next, join_rows, auto_join_tick,
}

-- no cap can be read: there is no admin edge and no consent to go without a cap, or it answers nobody
abbrev pub Unreadable : Settings → Type 0
Unreadable s =
    ((s.fetch_bot_context ≡ none) × (s.allow_uncapped ≡ false))
    ⊎ ((f : ℕ → Option BotContext) × (s.fetch_bot_context ≡ some f) × ((user : ℕ) → f user ≡ none))

asked : Option (ℕ → Option BotContext) → ℕ → Option BotContext
asked none user = none
asked (some f) user = f user

-- the row is passed over
abbrev Quiet : Sweep → Ticked → Type 0
Quiet w t = (w' : Sweep) × (t ≡ Ticked.finished w') × (w'.calls ≡ w.calls)

join_row-Quiet :
    (s : Settings) (now : ℕ) (m : Meeting) (w : Sweep) → Unreadable s → Quiet w (join_row s now m w)
unfolding join_row pass_gate resolve_cap with_context asked stamp_error
join_row-Quiet s now m w h = gated s.gate
  where
    resolved :
        (f : Option (ℕ → Option BotContext))
        → ((f ≡ none) × (s.allow_uncapped ≡ false))
          ⊎ ((g : ℕ → Option BotContext) × (f ≡ some g) × ((user : ℕ) → g user ≡ none))
        → Quiet w (resolve_cap s now m f w)
    resolved none (inl (_, closed)) =
        (record w { skipped_uncapped = suc w.skipped_uncapped }, rw closed refl, refl)
    resolved none (inr (g, e, _)) = ground (arith, e)
    resolved (some fetch) (inl (e, _)) = ground (arith, e)
    resolved (some fetch) (inr (g, e, silent)) = (
      w,
      ap (λ c. with_context s now m c w) (ap (λ o. asked o m.user_id) e ∙ silent m.user_id),
      refl,
    )

    gated : (gate : Option String) → Quiet w (pass_gate s now m gate w)
    gated (some reason) = (stamp_error s now m reason w, refl, refl)
    gated none = resolved s.fetch_bot_context h

join_rows-Quiet :
    (s : Settings) (now : ℕ) (ms : List Meeting) (w : Sweep)
    → Unreadable s
    → Quiet w (join_rows s now ms w)
unfolding join_rows
join_rows-Quiet s now [] w h = (w, refl, refl)
join_rows-Quiet s now (m ∷ ms) w h =
    let (w', e, same) = join_row-Quiet s now m w h in
    let (w'', e', same') = join_rows-Quiet s now ms w' h in
    (w'', ap (next (join_rows s now ms)) e ∙ e', same' ∙ same)

-- The sweep fails closed: where no cap can be read, because there is no admin edge and no consent to go
-- without, or because identity answers nobody, a tick finishes and asks the runtime for nothing.
pub tick_fails_closed :
    (s : Settings) (now : ℕ) (db : Tables)
    → Unreadable s
    → (w : Sweep) × (auto_join_tick s now db ≡ Ticked.finished w) × (w.calls ≡ [])
unfolding auto_join_tick
tick_fails_closed s now db h =
    join_rows-Quiet s now (due_rows s now (list_scheduled db.meetings))
      (record {
        tables = db;
        calls = [];
        spawned = 0;
        already = 0;
        errors = 0;
        skipped_uncapped = 0;
      })
      h

abbrev pub fresh_sweep : Tables → Sweep
fresh_sweep db = record {
  tables = db;
  calls = [];
  spawned = 0;
  already = 0;
  errors = 0;
  skipped_uncapped = 0;
}

-- the request of a row that no transcription backend serves
send_bot_deaf :
    (s : Settings) (now : ℕ) (m : Meeting) (c : BotContext) (w : Sweep)
    → (s.environment m).transcription ≡ false
    → send_bot s now m c w
      ≡ Ticked.aborted SpawnError.transcription_not_configured (record w { calls = w.calls ++ [] })
unfolding send_bot take_outcome request_bot
send_bot_deaf s now m c w deaf =
    ap
      (λ heard.
        let a =
          if not heard
          then record {
            tables = w.tables;
            calls = [];
            outcome = Result.raised SpawnError.transcription_not_configured;
          }
          else continue_with (s.environment m) w.tables (acquire w.tables (request_of c m)) in
        take_outcome s now m (record w { tables = a.tables; calls = w.calls ++ a.calls }) a.outcome)
      deaf

calls-nil : (cs : List RuntimeCall) → cs ++ [] ≡ cs
calls-nil [] = refl
calls-nil (c ∷ cs) = ap (λ xs. c ∷ xs) (calls-nil cs)

-- what leaves the loop has not been ended by its first row
next-finished :
    (rest : Sweep → Ticked) (t : Ticked) (w : Sweep)
    → next rest t ≡ Ticked.finished w
    → (v : Sweep) × (t ≡ Ticked.finished v) × (rest v ≡ Ticked.finished w)
next-finished rest (Ticked.finished v) w h = (v, refl, h)
next-finished rest (Ticked.aborted e v) w h = absurd (ground (arith, h))

-- the rows before a row are served first
join_rows-append :
    (s : Settings) (now : ℕ) (before ms : List Meeting) (w w' : Sweep)
    → join_rows s now before w ≡ Ticked.finished w'
    → join_rows s now (before ++ ms) w ≡ join_rows s now ms w'
unfolding join_rows
join_rows-append s now [] ms w w' h = ground (arith, h)
join_rows-append s now (m ∷ before) ms w w' h =
    let (v, done, rest) = next-finished (join_rows s now before) (join_row s now m w) w' h in
    ap (next (join_rows s now (before ++ ms))) done ∙ join_rows-append s now before ms v w' rest

-- A row that is sent to without a transcription backend ends the whole tick. Where the rows before it
-- have left the sweep at `before`, no gate is set, and the cap of its user can be read, the exception
-- leaves the loop, so that neither this row is stamped nor any row after it served: the tables and the
-- calls to the runtime are those of the rows before it.
pub tick_aborts :
    (s : Settings) (now : ℕ) (db : Tables) (earlier later : List Meeting) (m : Meeting)
    (before : Sweep) (f : ℕ → Option BotContext) (c : BotContext)
    → due_rows s now (list_scheduled db.meetings) ≡ earlier ++ m ∷ later
    → join_rows s now earlier (fresh_sweep db) ≡ Ticked.finished before
    → s.gate ≡ none
    → s.fetch_bot_context ≡ some f
    → f m.user_id ≡ some c
    → (s.environment m).transcription ≡ false
    → (w : Sweep) × (auto_join_tick s now db
        ≡ Ticked.aborted SpawnError.transcription_not_configured w)
      × (w.tables ≡ before.tables)
      × (w.calls ≡ before.calls)
unfolding auto_join_tick join_rows join_row pass_gate resolve_cap with_context
tick_aborts s now db earlier later m before f c due ran ungated edge known deaf =
    let sent =
      ap (λ g. pass_gate s now m g before) ungated
      ∙ ap (λ o. resolve_cap s now m o before) edge
      ∙ ap (λ o. with_context s now m o before) known
      ∙ send_bot_deaf s now m c before deaf in
    (
      record before { calls = before.calls ++ [] },
      ap (λ rows. join_rows s now rows (fresh_sweep db)) due
          ∙ join_rows-append s now earlier (m ∷ later) (fresh_sweep db) before ran
          ∙ ap (next (join_rows s now later)) sent,
      refl,
      calls-nil before.calls,
    )
