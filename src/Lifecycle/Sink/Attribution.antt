-- ===== src/Lifecycle/Sink/Attribution.antt =====
-- Why a meeting ended: what the record says of it, whatever the event claims.
use meeting_bot_service.Prelude.{
  Bool, true, false, String, refl, Option, none, some, ◌⊎◌, inl, inr, ◌≡◌, arith, is_some,
  Option-cases,
}
use meeting_bot_service.Lifecycle.Types.{BotStatus, FailureStage, TransitionSource}
use meeting_bot_service.Lifecycle.Machine.{LifecycleEvent, MeetingRecord, failure_stage_from}
use meeting_bot_service.Lifecycle.Sink.{
  StatusChange, changed, step, advance, attribute, absorb, keep_forensics, commit, read_reason,
  or_keep,
}

-- the stage of a record that fails in this status: its own, the waiting room where it needs help, and
-- `active` where its status has no stage
abbrev pub IsStageOf : Option BotStatus → FailureStage → Type 0
IsStageOf none stage = stage ≡ FailureStage.requested
IsStageOf (some BotStatus.joining) stage = stage ≡ FailureStage.joining
IsStageOf (some BotStatus.awaiting_admission) stage = stage ≡ FailureStage.awaiting_admission
IsStageOf (some BotStatus.needs_help) stage = stage ≡ FailureStage.awaiting_admission
IsStageOf (some BotStatus.active) stage = stage ≡ FailureStage.active
IsStageOf (some BotStatus.completed) stage = stage ≡ FailureStage.active
IsStageOf (some BotStatus.failed) stage = stage ≡ FailureStage.active

failure_stage_from-IsStageOf : (o : Option BotStatus) → IsStageOf o (failure_stage_from o)
unfolding failure_stage_from
failure_stage_from-IsStageOf none = refl
failure_stage_from-IsStageOf (some BotStatus.joining) = refl
failure_stage_from-IsStageOf (some BotStatus.awaiting_admission) = refl
failure_stage_from-IsStageOf (some BotStatus.needs_help) = refl
failure_stage_from-IsStageOf (some BotStatus.active) = refl
failure_stage_from-IsStageOf (some BotStatus.completed) = refl
failure_stage_from-IsStageOf (some BotStatus.failed) = refl

module _ (force : Bool) (rec : MeetingRecord) (e : LifecycleEvent) (source : TransitionSource)
    (now : String) (c : StatusChange) where
  -- A meeting that fails is attributed to the stage that its record was in, whatever stage the event
  -- names: requested where it had no status yet, the waiting room where it needed help. The reason is
  -- the event's. Its details are the event's; without those, the ones that the record had; and where
  -- neither has any, there are details if the event or the record has an exit code.
  pub failed_attribution :
      (step force rec BotStatus.failed e source now).1 ≡ changed c
      → c.no_op ≡ false
      → let after = (step force rec BotStatus.failed e source now).0 in
        ((stage : FailureStage) × (after.failure_stage ≡ some stage) × IsStageOf rec.status stage)
        × (read_reason e.completion_reason ≡ some after.completion_reason)
        × (((d : String) × (e.error_details ≡ some d) × (after.error_details ≡ some d))
            ⊎ ((d : String) × (e.error_details ≡ none)
                × (rec.error_details ≡ some d)
                × (after.error_details ≡ some d))
            ⊎ ((e.error_details ≡ none)
                × (rec.error_details ≡ none)
                × (((e.exit_code ≡ none) × (rec.exit_code ≡ none))
                    ⊎ (is_some after.error_details ≡ true))))
  unfolding step advance attribute keep_forensics commit absorb
  failed_attribution h n =
      let after = (step force rec BotStatus.failed e source now).0 in
      let staged : (stage : FailureStage) × (after.failure_stage ≡ some stage)
          × IsStageOf rec.status stage =
        (failure_stage_from rec.status, ground arith, failure_stage_from-IsStageOf rec.status) in
      elim (Option-cases e.error_details) [
        | inr (d, told) ↦ (staged, ground arith, inl (d, told, ground (arith, told)))
        | inl silent ↦ elim (Option-cases rec.error_details) [
          | inr (d, had) ↦
              (staged, ground arith, inr (inl (d, silent, had, ground (arith, silent, had))))
          | inl nothing ↦
              (staged, ground arith, inr (inr (silent, nothing, ground (arith, silent, nothing))))
        ]
      ]

  -- A meeting that completes takes the event's reason and no failure stage of its own.
  completed_attribution :
      (step force rec BotStatus.completed e source now).1 ≡ changed c
      → c.no_op ≡ false
      → let after = (step force rec BotStatus.completed e source now).0 in
        (read_reason e.completion_reason ≡ some after.completion_reason)
        × (after.failure_stage ≡ rec.failure_stage)
        × (after.reason ≡ or_keep e.reason rec.reason)
        × (after.exit_code ≡ or_keep e.exit_code rec.exit_code)
  unfolding step advance attribute keep_forensics commit absorb
  completed_attribution h n = ground arith
