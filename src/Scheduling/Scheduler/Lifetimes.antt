-- ===== src/Scheduling/Scheduler/Lifetimes.antt =====
-- Any sequence of calls of the scheduler.
use meeting_bot_service.Prelude.{ℕ, ◌≤◌, String, List, [], ◌∷◌, ◌≡◌, refl, get, arith, All}
use meeting_bot_service.Scheduling.Scheduler.{
  Request, Spec, Scheduler, Dispatched, schedule, cancel, tick, due,
}
use meeting_bot_service.Scheduling.Scheduler.Firing.{count_fired, IsBounded, Sane}
use meeting_bot_service.Scheduling.Scheduler.Steps.{schedule-Sane, cancel-Sane, process_all-Sane}

pub data Operation : Type 0 where
  schedule_op : Spec → ℕ → Operation
  cancel_op : String → Operation
  tick_op : ℕ → Operation

-- the retries that a call brings in are within the cap
abbrev pub IsCapped : ℕ → Operation → Type 0
IsCapped cap (schedule_op spec now) = IsBounded cap spec.retry
IsCapped cap (cancel_op id) = Unit
IsCapped cap (tick_op now) = Unit

abbrev pub empty : Scheduler
empty = record { jobs = []; running = []; history = []; idem = []; drawn = 0; fired = [] }

module _ (new_id : ℕ → String) (next_time : String → ℕ → ℕ)
    (dispatch : ℕ → Request → Dispatched) where
  unfoldable pub perform : Scheduler → Operation → Scheduler
  perform s (schedule_op spec now) = (schedule new_id next_time dispatch s spec now).0
  perform s (cancel_op id) = (cancel new_id next_time dispatch s id).0
  perform s (tick_op now) = (tick new_id next_time dispatch s now).0

  unfoldable pub perform_all : Scheduler → List Operation → Scheduler
  perform_all s [] = s
  perform_all s (op ∷ ops) = perform_all (perform s op) ops

  module _ (distinct : (m n : ℕ) → new_id m ≡ new_id n → m ≡ n) (cap : ℕ) (enough : 3 ≤ cap) where
    pub perform-Sane :
        (s : Scheduler) (op : Operation)
        → IsCapped cap op
        → Sane new_id distinct cap s
        → Sane new_id distinct cap (perform s op)
    unfolding perform tick
    perform-Sane s (schedule_op spec now) small h =
        schedule-Sane new_id distinct cap next_time dispatch s spec now h small
    perform-Sane s (cancel_op id) small h =
        cancel-Sane new_id distinct cap next_time dispatch s id h
    perform-Sane s (tick_op now) small h =
        process_all-Sane new_id distinct cap next_time dispatch now
          (due new_id next_time dispatch now s.jobs) s enough h

    pub perform_all-Sane :
        (ops : List Operation) (s : Scheduler)
        → All (IsCapped cap) ops
        → Sane new_id distinct cap s
        → Sane new_id distinct cap (perform_all s ops)
    unfolding perform_all
    perform_all-Sane [] s small h = h
    perform_all-Sane (op ∷ ops) s small h =
        perform_all-Sane ops (perform s op) small.1 (perform-Sane s op small.0 h)

    pub empty-Sane : Sane new_id distinct cap empty
    unfolding get count_fired
    empty-Sane = record {
      filed = λ j slot found. cc;
      fresh = λ n later. (refl, refl);
      bounded = λ j. omega arith;
    }

    -- Over any calls on an empty scheduler, whatever the dispatches answer, no job is dispatched more
    -- often than the cap on the attempts of the specs, the default of 3 included.
    attempts_bounded :
        (ops : List Operation) (id : String)
        → All (IsCapped cap) ops
        → count_fired (perform_all empty ops).fired id ≤ cap
    attempts_bounded ops id small = (perform_all-Sane ops empty small empty-Sane).bounded id
