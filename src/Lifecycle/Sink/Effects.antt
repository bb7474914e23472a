-- ===== src/Lifecycle/Sink/Effects.antt =====
-- What one event does to the record of its meeting, on every branch of `step`.
use meeting_bot_service.Prelude.{false, String, Option, some, [], ◌∷◌, ◌++◌, ◌≡◌, arith}
use meeting_bot_service.Lifecycle.Types.{BotStatus, TransitionSource}
use meeting_bot_service.Lifecycle.Machine.{LifecycleEvent, MeetingRecord}
use meeting_bot_service.Lifecycle.Sink.{
  StatusChange, changed, value_error, absorb, attribute, keep_forensics, advance,
}

-- the two records agree on what the machine steers by
pub record SameCourse (a b : MeetingRecord) : Type 0 where
  pub status : a.status ≡ b.status
  pub history : a.history ≡ b.history
  pub trail : a.status_transition ≡ b.status_transition
  pub intent : a.stop_requested ≡ b.stop_requested

pub absorb-SameCourse : (rec : MeetingRecord) (e : LifecycleEvent) → SameCourse (absorb rec e) rec
unfolding absorb
absorb-SameCourse rec e = ground arith

pub attribute-SameCourse :
    (to : BotStatus) (frm : Option BotStatus) (rec : MeetingRecord) (raw : Option String)
    → SameCourse (attribute to frm rec raw).0 rec
unfolding attribute
attribute-SameCourse BotStatus.completed frm rec raw = ground arith
attribute-SameCourse BotStatus.failed frm rec raw = ground arith
attribute-SameCourse _ frm rec raw = ground arith

pub keep_forensics-SameCourse :
    (to : BotStatus) (rec : MeetingRecord) (e : LifecycleEvent)
    → SameCourse (keep_forensics to rec e) rec
unfolding keep_forensics
keep_forensics-SameCourse to rec e = ground arith

module _ (rec : MeetingRecord) (to : BotStatus) (e : LifecycleEvent) (source : TransitionSource)
    (now : String) where
  -- the hop that a successful advance records
  pub record Hop (c : StatusChange) (rec' : MeetingRecord) : Type 0 where
    pub status : rec'.status ≡ some to
    pub history : rec'.history ≡ rec.history ++ to ∷ []
    pub old : c.old_status ≡ rec.status
    pub new : c.new_status ≡ to
    pub advanced : c.no_op ≡ false
    pub kept : c.change_record ≡ rec'

  pub advance-Hop :
      (c : StatusChange)
      → (advance rec to e source now).1 ≡ changed c
      → Hop c (advance rec to e source now).0
  unfolding advance
  advance-Hop c h = ground (
    arith,
    absorb-SameCourse rec e,
    attribute-SameCourse to rec.status (absorb rec e) e.completion_reason,
    keep_forensics-SameCourse to (attribute to rec.status (absorb rec e) e.completion_reason).0 e,
  )

  pub advance_error :
      (advance rec to e source now).1 ≡ value_error → SameCourse (advance rec to e source now).0 rec
  unfolding advance
  advance_error h = ground (
    arith,
    absorb-SameCourse rec e,
    attribute-SameCourse to rec.status (absorb rec e) e.completion_reason,
  )
