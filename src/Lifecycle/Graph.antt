-- ===== src/Lifecycle/Graph.antt =====
-- The transition diagram of lifecycle/machine.py, as a relation of its own.
use meeting_bot_service.Prelude.{true, Option, none, some, List, [], ◌∷◌, ◌++◌, ◌≡◌, refl, arith}
use meeting_bot_service.Lifecycle.Types.{BotStatus}
use meeting_bot_service.Lifecycle.Machine.{can_transition}

-- one hop that the bot may report
pub data Edge : Option BotStatus → BotStatus → Type 0 where
  enter : Edge none BotStatus.joining
  wait : Edge (some BotStatus.joining) BotStatus.awaiting_admission
  walk_in : Edge (some BotStatus.joining) BotStatus.active
  join_fails : Edge (some BotStatus.joining) BotStatus.failed
  admit : Edge (some BotStatus.awaiting_admission) BotStatus.active
  escalate : Edge (some BotStatus.awaiting_admission) BotStatus.needs_help
  wait_fails : Edge (some BotStatus.awaiting_admission) BotStatus.failed
  helped : Edge (some BotStatus.needs_help) BotStatus.active
  help_fails : Edge (some BotStatus.needs_help) BotStatus.failed
  finish : Edge (some BotStatus.active) BotStatus.completed
  crash : Edge (some BotStatus.active) BotStatus.failed

pub ruleset edges = (
  enter, wait, walk_in, join_fails, admit, escalate, wait_fails, helped, help_fails, finish, crash,
)

pub can_transition-Edge :
    (frm : Option BotStatus) (to : BotStatus) → can_transition frm to ≡ true → Edge frm to
unfolding can_transition
can_transition-Edge frm to h = grind (arith, edges)

pub Edge-can_transition :
    {frm : Option BotStatus} {to : BotStatus} → Edge frm to → can_transition frm to ≡ true
unfolding can_transition
Edge-can_transition enter = refl
Edge-can_transition wait = refl
Edge-can_transition _ = refl

-- a walk along the diagram through the given statuses
abbrev pub Walk : Option BotStatus → List BotStatus → Option BotStatus → Type 0
Walk s [] t = s ≡ t
Walk s (h ∷ hs) t = Edge s h × Walk (some h) hs t

pub Walk-snoc :
    (s : Option BotStatus) (hs : List BotStatus) (t : Option BotStatus) (u : BotStatus)
    → Walk s hs t
    → Edge t u
    → Walk s (hs ++ u ∷ []) (some u)
Walk-snoc s [] t u w e = (rw w e, refl)
Walk-snoc s (h ∷ hs) t u w e = (w.0, Walk-snoc (some h) hs t u w.1 e)
