-- ===== src/Lifecycle/Sink/Course.antt =====
-- The history and the trail of a record that the bot alone has driven.
use mathlib.Core.Option
use mathlib.Core.Path.{subst}
use mathlib.Core.List.{Memᴰ}
use meeting_bot_service.Prelude.{
  false, String, Option, none, some, List, [], ◌∷◌, ◌++◌, ◌≡◌, ◌⊎◌, inl, inr, refl, arith, get, put,
  get-put, str_eq, Option-cases, Bool-cases, sym, All,
}
use meeting_bot_service.Lifecycle.Types.{
  BotStatus, TransitionSource, parse_status, status_value, opt_status_eq,
}
use meeting_bot_service.Lifecycle.Machine.{
  LifecycleEvent, TrailEntry, MeetingRecord, MeetingStore, get_or_create, new_record,
  can_transition, is_terminal_status,
}
use meeting_bot_service.Lifecycle.Graph.{Edge, can_transition-Edge, Walk, Walk-snoc}
use meeting_bot_service.Lifecycle.Sink.{
  step, advance, permits, apply_change, attribute, absorb, keep_forensics, commit,
}
use meeting_bot_service.Lifecycle.Sink.Effects.{
  SameCourse, absorb-SameCourse, attribute-SameCourse, keep_forensics-SameCourse,
}
use meeting_bot_service.Lifecycle.Sink.Runs.{Call, deliver, reseed, call, run}

-- the trail tells the hops of the history, one entry for each, in the wire texts
abbrev pub Linked : Option BotStatus → List BotStatus → List TrailEntry → Type 0
Linked s [] [] = Unit
Linked s (h ∷ hs) (t ∷ ts) =
    (t.from_status ≡ Option.map status_value s)
    × (t.to_status ≡ status_value h)
    × Linked (some h) hs ts
Linked _ _ _ = ⊥

pub Linked-snoc :
    (s : Option BotStatus) (hs : List BotStatus) (ts : List TrailEntry) (u : Option BotStatus)
    (h : BotStatus) (t : TrailEntry)
    → Walk s hs u
    → Linked s hs ts
    → t.from_status ≡ Option.map status_value u
    → t.to_status ≡ status_value h
    → Linked s (hs ++ h ∷ []) (ts ++ t ∷ [])
Linked-snoc s [] [] u h t w l p q = (rw w p, q, tt)
Linked-snoc s [] (t' ∷ ts) u h t w l p q = absurd l
Linked-snoc s (h' ∷ hs) [] u h t w l p q = absurd l
Linked-snoc s (h' ∷ hs) (t' ∷ ts) u h t w l p q =
    (l.0, l.1, Linked-snoc (some h') hs ts u h t w.1 l.2 p q)

-- the history is a walk of the diagram from its entry to the status, and the trail tells it
pub record IsTraced (rec : MeetingRecord) : Type 0 where
  pub walked : Walk none rec.history rec.status
  pub told : Linked none rec.history rec.status_transition

pub new_record-IsTraced : (id : String) → IsTraced (new_record id)
unfolding new_record
new_record-IsTraced id = record { walked = refl; told = tt }

SameCourse-IsTraced : (a b : MeetingRecord) → SameCourse a b → IsTraced b → IsTraced a
SameCourse-IsTraced a b c t = record {
  walked = rw (c.history, c.status) t.walked;
  told = rw (c.history, c.trail) t.told;
}

commit-IsTraced :
    (frm : Option BotStatus) (to : BotStatus) (rec : MeetingRecord) (source : TransitionSource)
    (now : String)
    → frm ≡ rec.status
    → Edge frm to
    → IsTraced rec
    → IsTraced (commit frm to rec source now)
unfolding commit
commit-IsTraced frm to rec source now same g t =
    let walked : Walk none rec.history frm = rw same t.walked in
    record {
      walked = Walk-snoc none rec.history frm to walked g;
      told = Linked-snoc none rec.history rec.status_transition frm to _ walked t.told refl refl;
    }

module _ (rec : MeetingRecord) (to : BotStatus) (e : LifecycleEvent) (source : TransitionSource)
    (now : String) where
  abbrev noted : MeetingRecord
  noted = (attribute to rec.status (absorb rec e) e.completion_reason).0

  noted-SameCourse : SameCourse noted rec
  noted-SameCourse = ground (
    arith,
    absorb-SameCourse rec e,
    attribute-SameCourse to rec.status (absorb rec e) e.completion_reason,
  )

  kept-SameCourse : SameCourse (keep_forensics to noted e) rec
  kept-SameCourse = ground (arith, noted-SameCourse, keep_forensics-SameCourse to noted e)

  advance-IsTraced : Edge rec.status to → IsTraced rec → IsTraced (advance rec to e source now).0
  unfolding advance
  advance-IsTraced g t =
      elim (Bool-cases (attribute to rec.status (absorb rec e) e.completion_reason).1) [
        | inl fine ↦
            rw (fine, advance)
              (commit-IsTraced rec.status to (keep_forensics to noted e) source now
                (sym kept-SameCourse.status) g
                (SameCourse-IsTraced (keep_forensics to noted e) rec kept-SameCourse t))
        | inr bad ↦ rw (bad, advance) (SameCourse-IsTraced noted rec noted-SameCourse t)
      ]

  step-IsTraced : IsTraced rec → IsTraced (step false rec to e source now).0
  unfolding step permits
  step-IsTraced t = elim (Bool-cases (opt_status_eq rec.status to)) [
    | inl same ↦ rw (same, step) t
    | inr new ↦ elim (Bool-cases (is_terminal_status rec.status)) [
      | inl ended ↦ rw (new, ended, step) t
      | inr open' ↦ elim (Bool-cases (can_transition rec.status to)) [
        | inl legal ↦
            rw (new, open', legal, step)
              (advance-IsTraced (can_transition-Edge rec.status to legal) t)
        | inr no_edge ↦ rw (new, open', no_edge, step) t
      ]
    ]
  ]

-- every record of the store satisfies P
abbrev pub Every : (MeetingRecord → Type 0) → MeetingStore → Type 0
Every P store = (id : String) (rec : MeetingRecord) → get store id ≡ some rec → P rec

get_or_create-Every :
    (P : MeetingRecord → Type 0) (store : MeetingStore) (id : String)
    → ((id : String) → P (new_record id))
    → Every P store
    → P (get_or_create store id)
unfolding get_or_create
get_or_create-Every P store id fresh h = elim (Option-cases (get store id)) [
  | inl no_record ↦ rw (no_record, get_or_create) (fresh id)
  | inr (rec, found) ↦ rw (found, get_or_create) (h id rec found)
]

put-Every :
    (P : MeetingRecord → Type 0) (store : MeetingStore) (id : String) (new : MeetingRecord)
    → P new
    → Every P store
    → Every P (put store id new)
put-Every P store id new p h j rec found = elim (Bool-cases (str_eq id j)) [
  | inl here ↦ subst P (ground (arith, get-put store id j new)) p
  | inr there ↦ h j rec (ground (arith, get-put store id j new))
]

-- the calls that the bot's own callbacks make
abbrev pub IsBotCall : Call → Type 0
IsBotCall (deliver force e source now) = force ≡ false
IsBotCall (reseed id persisted) = ⊥

call-IsTraced :
    (store : MeetingStore) (c : Call)
    → IsBotCall c
    → Every IsTraced store
    → Every IsTraced (call store c)
unfolding call apply_change
call-IsTraced store (deliver force e source now) bot h =
    elim (Option-cases (parse_status e.status)) [
      | inl bad ↦ rw (bad, call, apply_change) h
      | inr (to, good) ↦
          let rec = get_or_create store e.connection_id in
          let traced = get_or_create-Every IsTraced store e.connection_id new_record-IsTraced h in
          rw (good, bot, call, apply_change)
            (put-Every IsTraced store e.connection_id (step false rec to e source now).0
              (step-IsTraced rec to e source now traced) h)
    ]
call-IsTraced store (reseed id persisted) bot h = absurd bot

-- From a store whose records are traced, such as the empty one, the bot's events alone keep every
-- record traced: its history is a walk of the diagram from its entry to its status, and the trail
-- has one entry for each hop of it.
pub run-IsTraced :
    (calls : List Call) (store : MeetingStore)
    → All IsBotCall calls
    → Every IsTraced store
    → Every IsTraced (run store calls)
unfolding run
run-IsTraced [] store bots h = h
run-IsTraced (c ∷ cs) store bots h =
    run-IsTraced cs (call store c) bots.1 (call-IsTraced store c bots.0 h)

Edge-completed :
    {s : Option BotStatus} {t : BotStatus}
    → Edge s t
    → t ≡ BotStatus.completed
    → s ≡ some BotStatus.active
Edge-completed Edge.finish h = refl
Edge-completed Edge.enter h = cc
Edge-completed _ h = cc

Walk-completed :
    (s : Option BotStatus) (hs : List BotStatus)
    → Walk s hs (some BotStatus.completed)
    → (s ≡ some BotStatus.completed) ⊎ ((s ≡ some BotStatus.active) ⊎ Memᴰ BotStatus.active hs)
Walk-completed s [] w = inl w
Walk-completed s (h ∷ hs) w = elim (Walk-completed (some h) hs w.1) [
  | inl ended ↦ inr (inl (Edge-completed w.0 (ground arith)))
  | inr (inl here) ↦ inr (inr (Memᴰ.head (ground arith)))
  | inr (inr later) ↦ inr (inr (Memᴰ.tail later))
]

-- A meeting that only its bot's events have driven, from an empty store, is completed only if it
-- was active before.
pub completed_was_active :
    (calls : List Call) (id : String) (rec : MeetingRecord)
    → All IsBotCall calls
    → get (run [] calls) id ≡ some rec
    → rec.status ≡ some BotStatus.completed
    → Memᴰ BotStatus.active rec.history
unfolding get
completed_was_active calls id rec bots found ended =
    elim (Walk-completed none rec.history
      (rw (← ended) (run-IsTraced calls [] bots (λ j r p. cc) id rec found).walked)) [
        | inl p ↦ cc
        | inr (inl p) ↦ cc
        | inr (inr m) ↦ m
      ]
