-- ===== src/Lifecycle/Sink/Safety.antt =====
-- Which events `step` accepts, and what it leaves alone when it refuses.
use meeting_bot_service.Prelude.{Bool, true, false, String, ◌≡◌, ◌⊎◌, ◌↔◌, arith, ◌&&◌}
use meeting_bot_service.Lifecycle.Types.{BotStatus, TransitionSource, opt_status_eq}
use meeting_bot_service.Lifecycle.Machine.{
  LifecycleEvent, MeetingRecord, in_terminal, is_terminal_status, can_transition,
}
use meeting_bot_service.Lifecycle.Graph.{Edge, can_transition-Edge}
use meeting_bot_service.Lifecycle.Sink.{
  StatusChange, Outcome, changed, illegal_transition, step, advance, permits, absorb,
}
use meeting_bot_service.Lifecycle.Sink.Effects.{
  SameCourse, Hop, advance-Hop, absorb-SameCourse, attribute-SameCourse,
}

abbrev pub is_changed : Outcome → Bool
is_changed (changed c) = true
is_changed _ = false

module _ (force : Bool) (rec : MeetingRecord) (to : BotStatus) (e : LifecycleEvent)
    (source : TransitionSource) (now : String) where
  -- An event that moves the meeting follows an edge of the diagram, or it is a forced terminal on
  -- a meeting that has not ended; the record gains exactly this hop.
  step-Edge :
      (c : StatusChange)
      → (step force rec to e source now).1 ≡ changed c
      → c.no_op ≡ false
      → (Edge rec.status to
          ⊎ ((force ≡ true) × (in_terminal to ≡ true) × (is_terminal_status rec.status ≡ false)))
        × Hop rec to e source now c (step force rec to e source now).0
  unfolding step permits
  step-Edge c h n = (
    ground (arith, can_transition-Edge rec.status to),
    ground (arith, advance-Hop rec to e source now c),
  )

  -- `apply_change` on the record raises IllegalTransition exactly when the event names another
  -- status and the record has ended or neither the diagram nor a forced terminal allows the hop.
  step-illegal_iff :
      ((step force rec to e source now).1 ≡ illegal_transition e.connection_id rec.status to) ↔ (
        (opt_status_eq rec.status to ≡ false)
        × ((is_terminal_status rec.status ≡ true)
            ⊎ ((can_transition rec.status to ≡ false) × ((force && in_terminal to) ≡ false))))
  unfolding step permits advance
  step-illegal_iff = (λ h. ground arith, λ h. ground arith)

  -- A call that raises leaves the status, the history, the trail and the stop request as they were.
  step_refused :
      is_changed (step force rec to e source now).1 ≡ false
      → SameCourse (step force rec to e source now).0 rec
  unfolding step advance
  step_refused h = ground (
    arith,
    absorb-SameCourse rec e,
    attribute-SameCourse to rec.status (absorb rec e) e.completion_reason,
  )
