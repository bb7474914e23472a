-- ===== src/Lifecycle/Sink/Runs.antt =====
-- Sequences of calls on the store: deliveries of events and rehydrations, in any order.
use meeting_bot_service.Prelude.{
  Bool, true, String, Option, some, List, [], ◌∷◌, ◌≡◌, inl, inr, arith, get, get-put, eq_iff,
  Option-cases,
}
use meeting_bot_service.Lifecycle.Types.{BotStatus, TransitionSource, parse_status}
use meeting_bot_service.Lifecycle.Machine.{
  LifecycleEvent, MeetingRecord, MeetingStore, is_terminal_status, get_or_create, rehydrate,
  reconcile_seed,
}
use meeting_bot_service.Lifecycle.Sink.{step, apply_change}

-- one call on the store
pub data Call : Type 0 where
  -- `apply_change`, forced or not
  deliver : Bool → LifecycleEvent → TransitionSource → String → Call
  -- `rehydrate` from the persisted status
  reseed : String → Option String → Call

unfoldable pub call : MeetingStore → Call → MeetingStore
call store (deliver force e source now) = (apply_change force store e source now).0
call store (reseed id persisted) = rehydrate store id persisted

unfoldable pub run : MeetingStore → List Call → MeetingStore
run store [] = store
run store (c ∷ cs) = run (call store c) cs

-- a terminal record is left as it is by every step
step_terminal :
    (force : Bool) (rec : MeetingRecord) (to : BotStatus) (e : LifecycleEvent)
    (source : TransitionSource) (now : String)
    → is_terminal_status rec.status ≡ true
    → (step force rec to e source now).0 ≡ rec
unfolding step
step_terminal force rec to e source now h = ground arith

call_terminal :
    (store : MeetingStore) (c : Call) (id : String) (rec : MeetingRecord)
    → get store id ≡ some rec
    → is_terminal_status rec.status ≡ true
    → get (call store c) id ≡ some rec
unfolding call apply_change rehydrate reconcile_seed get_or_create
call_terminal store (deliver force e source now) id rec here h =
    elim (Option-cases (parse_status e.status)) [
      | inl bad ↦ ground arith
      | inr (to, good) ↦ ground (
        arith,
        eq_iff e.connection_id id,
        step_terminal force rec to e source now,
        get-put store e.connection_id id
            (step force (get_or_create store e.connection_id) to e source now).0,
      )
    ]
call_terminal store (reseed j persisted) id rec here h = ground (
  arith,
  eq_iff j id,
  get-put store j id
      (reconcile_seed (get_or_create store j).status (get_or_create store j) persisted),
)

-- No sequence of calls, forced terminals and rehydrations among them, changes the record of a
-- completed or failed meeting in any field.
pub terminal_absorbs :
    (calls : List Call) (store : MeetingStore) (id : String) (rec : MeetingRecord)
    → get store id ≡ some rec
    → is_terminal_status rec.status ≡ true
    → get (run store calls) id ≡ some rec
unfolding run
terminal_absorbs [] store id rec here h = here
terminal_absorbs (c ∷ cs) store id rec here h =
    terminal_absorbs cs (call store c) id rec (call_terminal store c id rec here h) h
