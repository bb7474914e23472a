-- ===== src/Lifecycle/Reconcile/Terminals.antt =====
-- What the bodies of the sweeps do to the machine, which takes them as forced terminals.
use meeting_bot_service.Prelude.{
  eq_iff, ℕ, true, String, Option, none, some, ◌≡◌, ◌⊎◌, inl, inr, refl, get, get-put_self, arith,
  ap, ◌∙◌, ◌↔◌, not, ◌&&◌, str_eq, Bool-cases,
}
use meeting_bot_service.Lifecycle.Types.{
  BotStatus, CompletionReason, TransitionSource, parse_status, parse_reason, reason_value,
}
use meeting_bot_service.Lifecycle.Machine.{
  LifecycleEvent, MeetingRecord, MeetingStore, get_or_create, in_terminal, is_terminal_status,
}
use meeting_bot_service.Lifecycle.Sink.{
  step, apply_change, advance, permits, attribute, read_reason, truthy_text, commit,
}
use meeting_bot_service.Lifecycle.Reconcile.{Body, escalation}
use meeting_bot_service.Lifecycle.Reconcile.Sweeps.{
  Row, terminal_body, stop_body, is_pre_active_nonterminal,
}
use meeting_bot_service.Lifecycle.Reconcile.Synthesis.{synthetic_body, is_pre_active}

-- the event that a body is
unfoldable pub event_of : Body → LifecycleEvent
event_of body = record {
  connection_id = body.connection_id;
  status = body.status;
  container_id = none;
  reason = body.reason;
  exit_code = none;
  error_details = none;
  completion_reason = some body.completion_reason;
  bot_logs = none;
  bot_resources = none;
}

-- a body asks for a terminal, with this reason of the contract
abbrev pub IsEnding : Body → CompletionReason → Type 0
IsEnding body why =
    ((body.status ≡ "completed") ⊎ (body.status ≡ "failed"))
    × (body.completion_reason ≡ reason_value why)

-- every reason of the contract is read as itself
reads_value : (why : CompletionReason) → read_reason (some (reason_value why)) ≡ some (some why)
unfolding read_reason truthy_text parse_reason reason_value
reads_value CompletionReason.stopped = refl
reads_value CompletionReason.left_alone = refl
reads_value CompletionReason.startup_alone = refl
reads_value CompletionReason.evicted = refl
reads_value CompletionReason.awaiting_admission_timeout = refl
reads_value CompletionReason.awaiting_admission_rejected = refl
reads_value CompletionReason.join_failure = refl
reads_value CompletionReason.validation_error = refl
reads_value CompletionReason.max_bot_time_exceeded = refl

parses_ending :
    (body : Body) (why : CompletionReason)
    → IsEnding body why
    → (to : BotStatus) × (parse_status body.status ≡ some to) × (in_terminal to ≡ true)
unfolding parse_status
parses_ending body why h = elim h.0 [
  | inl e ↦ (BotStatus.completed, ap parse_status e, refl)
  | inr e ↦ (BotStatus.failed, ap parse_status e, refl)
]

-- the meeting has ended
abbrev pub HasEnded : MeetingRecord → Type 0
HasEnded rec = (rec.status ≡ some BotStatus.completed) ⊎ (rec.status ≡ some BotStatus.failed)

-- a forced terminal with a readable reason leaves an ended record, whatever the record was
step_ends :
    (rec : MeetingRecord) (to : BotStatus) (e : LifecycleEvent) (source : TransitionSource)
    (now : String) (why : Option CompletionReason)
    → in_terminal to ≡ true
    → read_reason e.completion_reason ≡ some why
    → is_terminal_status (step true rec to e source now).0.status ≡ true
unfolding step advance permits attribute commit
step_ends rec to e source now why ends reads = ground arith

ended : (rec : MeetingRecord) → is_terminal_status rec.status ≡ true → HasEnded rec
ended rec h = go rec.status h
  where
    go :
        (o : Option BotStatus)
        → is_terminal_status o ≡ true
        → (o ≡ some BotStatus.completed) ⊎ (o ≡ some BotStatus.failed)
    go none t = absurd (ground (arith, t))
    go (some BotStatus.joining) t = absurd (ground (arith, t))
    go (some BotStatus.awaiting_admission) t = absurd (ground (arith, t))
    go (some BotStatus.needs_help) t = absurd (ground (arith, t))
    go (some BotStatus.active) t = absurd (ground (arith, t))
    go (some BotStatus.completed) t = inl refl
    go (some BotStatus.failed) t = inr refl

pub ending_lands :
    (body : Body) (store : MeetingStore) (source : TransitionSource) (now : String)
    (why : CompletionReason)
    → IsEnding body why
    → (rec : MeetingRecord) × (get
          (apply_change true store (event_of body) source now).0
          body.connection_id
        ≡ some rec)
      × HasEnded rec
unfolding apply_change event_of
ending_lands body store source now why h =
    let e = event_of body in
    let (to, parsed, ends) = parses_ending body why h in
    let reads = ap (λ (t : String). read_reason (some t)) h.1 ∙ reads_value why in
    let rec = get_or_create store body.connection_id in
    let out = step true rec to e source now in
    (
      out.0,
      rw (parsed, apply_change) (get-put_self store body.connection_id out.0),
      ended out.0 (step_ends rec to e source now (some why) ends reads),
    )

-- The bodies of both sweeps and of an escalation ask for an end with a reason of the contract, and a
-- stale meeting ends as failed exactly if its status says that its bot was not active yet.
sweep_bodies-IsEnding :
    (row : Row) (session status : String) (container : Option String) (grace : ℕ)
    → ((why : CompletionReason) × IsEnding (terminal_body row) why)
      × (((terminal_body row).status ≡ "failed") ↔ (is_pre_active_nonterminal row.status ≡ true))
      × IsEnding (stop_body session) CompletionReason.stopped
      × IsEnding (escalation status session container grace) CompletionReason.left_alone
unfolding terminal_body escalation reason_value
sweep_bodies-IsEnding row session status container grace = (
  elim (Bool-cases (not (is_pre_active_nonterminal row.status) && row.stop_requested)) [
    | inl asked ↦ (CompletionReason.stopped, ground (arith, asked))
    | inr left ↦ (CompletionReason.left_alone, ground (arith, left))
  ],
  (λ f. ground (arith, eq_iff "completed" "failed"), λ p. ground arith),
  (inl refl, refl),
  (inr refl, refl),
)

-- The body that a dead workload leads to asks for an end with a reason of the contract: failed exactly
-- if the bot had not reported that it was in the meeting, else completed.
synthetic_body-IsEnding :
    (session status state : String) (body : Body)
    → synthetic_body session status state ≡ some body
    → ((why : CompletionReason) × IsEnding body why)
      × ((body.status ≡ "failed") ↔ (is_pre_active status ≡ true))
unfolding synthetic_body reason_value
synthetic_body-IsEnding session status state body h = (
  elim (Bool-cases (is_pre_active status)) [
    | inl early ↦ (CompletionReason.join_failure, ground (arith, early))
    | inr late ↦ elim (Bool-cases (str_eq status "stopping")) [
      | inl stopped ↦ (CompletionReason.stopped, ground (arith, late, stopped))
      | inr left ↦ (CompletionReason.left_alone, ground (arith, late, left))
    ]
  ],
  (λ f. ground (arith, eq_iff "completed" "failed"), λ p. ground arith),
)
