-- ===== src/Scheduling/Scheduler/Cancellation.antt =====
-- A cancelled job never fires.
use meeting_bot_service.Prelude.{
  ℕ, suc, ◌+◌, ltb, ◌≤◌, put, get-put, eq_iff, Bool-cases, String, Option, none, some, List, [],
  ◌∷◌, ◌≡◌, ◌≢◌, sym, ◌∙◌, ◌++◌, remove, length, get, get-remove, eq_refl, arith, All, Option-cases,
  inl, inr,
}
use meeting_bot_service.Scheduling.Scheduler.{
  Request, Spec, Job, Scheduler, Dispatched, returned, threw, truthy, executing, pending,
  default_retry, delay_for, process, make_job, file, settle, after_failure, after_success,
  reschedule_cron, completed, schedule, cancel, tick, process_all, due,
}
use meeting_bot_service.Scheduling.Scheduler.Firing.{count_fired, count_fired-append, Sane}
use meeting_bot_service.Scheduling.Scheduler.Steps.{make_job-made, cancel-Sane, process-Sane}
use meeting_bot_service.Scheduling.Scheduler.Lifetimes.{
  Operation, schedule_op, cancel_op, tick_op, IsCapped, empty, perform, perform_all, perform-Sane,
  perform_all-Sane, empty-Sane,
}

module _ (new_id : ℕ → String) (next_time : String → ℕ → ℕ)
    (dispatch : ℕ → Request → Dispatched) where
  module _ (distinct : (m n : ℕ) → new_id m ≡ new_id n → m ≡ n) (cap : ℕ) (enough : 3 ≤ cap) where
    -- no pending job has the id, and none will get it
    record IsDead (s : Scheduler) (id : String) (fires : ℕ) : Type 0 where
      gone : get s.jobs id ≡ none
      never : (n : ℕ) → s.drawn ≤ n → new_id n ≢ id
      fired : count_fired s.fired id ≡ fires

    file-IsDead :
        (s : Scheduler) (job : Job) (key : Option String) (id : String) (c : ℕ)
        → IsDead s id c
        → job.job_id ≡ new_id s.drawn
        → IsDead (file new_id next_time dispatch (record s { drawn = suc s.drawn }) job key).0 id c
    unfolding file
    file-IsDead s job key id c d named =
        let later : (n : ℕ) → suc s.drawn ≤ n → new_id n ≢ id =
          λ n le. d.never n (omega (arith, le)) in
        let apart = d.never s.drawn (omega arith) in
        let inserted : get (put s.jobs job.job_id (record { job = job; score = job.execute_at })) id
            ≡ none =
          ground (
            arith,
            d.gone,
            named,
            apart,
            eq_iff job.job_id id,
            get-put s.jobs job.job_id id (record { job = job; score = job.execute_at }),
          ) in
        elim (Option-cases key) [
          | inl unkeyed ↦
              rw (unkeyed, file) (record { gone = inserted; never = later; fired = d.fired })
          | inr (k, keyed) ↦ elim (Option-cases (get s.idem k)) [
            | inl new ↦
                rw (keyed, new, file) (record { gone = inserted; never = later; fired = d.fired })
            | inr (old, known) ↦
                rw (keyed, known, file) (record { gone = d.gone; never = later; fired = d.fired })
          ]
        ]

    schedule-IsDead :
        (s : Scheduler) (spec : Spec) (now : ℕ) (id : String) (c : ℕ)
        → IsDead s id c
        → IsDead (schedule new_id next_time dispatch s spec now).0 id c
    unfolding schedule
    schedule-IsDead s spec now id c d =
        elim (Option-cases (make_job new_id next_time dispatch s spec now)) [
          | inl bad ↦ rw (bad, schedule) d
          | inr (job, made) ↦
              rw (made, schedule)
                (file-IsDead s job (truthy job.idempotency_key) id c d
                  (make_job-made new_id distinct cap next_time dispatch s spec now job made).0)
        ]

    cancel-IsDead :
        (s : Scheduler) (j id : String) (c : ℕ)
        → IsDead s id c
        → IsDead (cancel new_id next_time dispatch s j).0 id c
    unfolding cancel
    cancel-IsDead s j id c d = elim (Option-cases (get s.jobs j)) [
      | inl absent ↦ rw (absent, cancel) d
      | inr (slot, there) ↦
          rw (there, cancel)
            (record {
              gone = ground (arith, d.gone, get-remove s.jobs j id);
              never = d.never;
              fired = d.fired;
            })
    ]

    settle-IsDead :
        (s : Scheduler) (job : Job) (now : ℕ) (answer : Dispatched) (id : String) (c : ℕ)
        → IsDead s id c
        → job.job_id ≢ id
        → IsDead (settle new_id next_time dispatch s job now answer) id c
    unfolding settle after_failure after_success reschedule_cron
    settle-IsDead s job now (returned result) id c d other =
        let done : Job = record job {
          status = completed;
          result = some result;
          completed_at = some now;
        } in
        let s' : Scheduler = record s {
          running = remove s.running job.job_id;
          history = put s.history job.job_id done;
        } in
        elim (Option-cases (truthy job.cron)) [
          | inl once ↦
              rw (once, after_success, reschedule_cron)
                (record { gone = d.gone; never = d.never; fired = d.fired })
          | inr (cron, again) ↦
              rw (again, after_success, reschedule_cron)
                (schedule-IsDead s'
                  (record {
                    request = job.request;
                    execute_at = some (next_time cron now);
                    cron = some cron;
                    retry = default_retry;
                    metadata = job.metadata;
                    idempotency_key = none;
                  })
                  now id c (record { gone = d.gone; never = d.never; fired = d.fired }))
        ]
    settle-IsDead s job now (threw error) id c d other =
        elim (Bool-cases (ltb (job.retry.attempt + 1) job.retry.max_attempts)) [
          | inl more ↦
              rw (more, after_failure)
                (record {
                  gone = ground (
                    arith,
                    d.gone,
                    other,
                    eq_iff job.job_id id,
                    get-put s.jobs job.job_id id (record {
                      job = record job {
                        status = pending;
                        retry = record job.retry { attempt = job.retry.attempt + 1 };
                      };
                      score =
                          now
                          + delay_for new_id next_time dispatch job.retry.backoff
                              (job.retry.attempt + 1);
                    }),
                  );
                  never = d.never;
                  fired = d.fired;
                })
          | inr over ↦
              rw (over, after_failure) (record { gone = d.gone; never = d.never; fired = d.fired })
        ]

    process-IsDead :
        (now : ℕ) (s : Scheduler) (j id : String) (c : ℕ)
        → Sane new_id distinct cap s
        → IsDead s id c
        → IsDead (process new_id next_time dispatch now s j) id c
    unfolding process
    process-IsDead now s j id c h d = elim (Option-cases (get s.jobs j)) [
      | inl absent ↦ rw (absent, process) d
      | inr (slot, there) ↦
          let named = (h.filed j slot there).0 in
          let other : j ≢ id = λ e. absurd (ground (arith, e, there, d.gone)) in
          let job : Job = record slot.job { status = executing } in
          rw (there, process)
            (settle-IsDead
              (record s {
                jobs = remove s.jobs j;
                running = put s.running j job;
                fired = s.fired ++ (j, now) ∷ [];
              })
              job now (dispatch (length s.fired) job.request) id c
              (record {
                gone = ground (arith, d.gone, get-remove s.jobs j id);
                never = d.never;
                fired =
                    ground
                      (arith, d.fired, other, eq_iff j id, count_fired-append s.fired j id now);
              })
              (λ e. other (sym named ∙ e)))
    ]

    process_all-IsDead :
        (now : ℕ) (js : List String) (s : Scheduler) (id : String) (c : ℕ)
        → Sane new_id distinct cap s
        → IsDead s id c
        → IsDead (process_all new_id next_time dispatch now s js) id c
    unfolding process_all
    process_all-IsDead now [] s id c h d = d
    process_all-IsDead now (j ∷ js) s id c h d =
        process_all-IsDead now js (process new_id next_time dispatch now s j) id c
          (process-Sane new_id distinct cap next_time dispatch now s j enough h)
          (process-IsDead now s j id c h d)

    perform-IsDead :
        (s : Scheduler) (op : Operation) (id : String) (c : ℕ)
        → Sane new_id distinct cap s
        → IsDead s id c
        → IsDead (perform new_id next_time dispatch s op) id c
    unfolding perform tick
    perform-IsDead s (schedule_op spec now) id c h d = schedule-IsDead s spec now id c d
    perform-IsDead s (cancel_op j) id c h d = cancel-IsDead s j id c d
    perform-IsDead s (tick_op now) id c h d =
        process_all-IsDead now (due new_id next_time dispatch now s.jobs) s id c h d

    perform_all-IsDead :
        (ops : List Operation) (s : Scheduler) (id : String) (c : ℕ)
        → All (IsCapped cap) ops
        → Sane new_id distinct cap s
        → IsDead s id c
        → IsDead (perform_all new_id next_time dispatch s ops) id c
    unfolding perform_all
    perform_all-IsDead [] s id c small h d = d
    perform_all-IsDead (op ∷ ops) s id c small h d =
        perform_all-IsDead ops (perform new_id next_time dispatch s op) id c small.1
          (perform-Sane new_id next_time dispatch distinct cap enough s op small.0 h)
          (perform-IsDead s op id c h d)

    -- Where the new ids are different, and every job that the calls schedule starts its retries at 0
    -- and has between one and `cap` of them, `cap` being at least the default of 3: a job that `cancel`
    -- answers, in any state that such calls on an empty scheduler have led to, is never dispatched
    -- again by any such calls after it.
    pub cancelled_never_fires :
        (before after : List Operation) (id : String) (job : Job)
        → All (IsCapped cap) before
        → All (IsCapped cap) after
        → (cancel new_id next_time dispatch
            (perform_all new_id next_time dispatch empty before)
            id).1
          ≡ some job
        → let s = perform_all new_id next_time dispatch empty before in
          let cut = (cancel new_id next_time dispatch s id).0 in
          count_fired (perform_all new_id next_time dispatch cut after).fired id
          ≡ count_fired s.fired id
    unfolding cancel
    cancelled_never_fires before after id job small small' answered =
        let s = perform_all new_id next_time dispatch empty before in
        let h =
          perform_all-Sane new_id next_time dispatch distinct cap enough before empty small
            (empty-Sane new_id next_time dispatch distinct cap enough) in
        let cut = (cancel new_id next_time dispatch s id).0 in
        elim (Option-cases (get s.jobs id)) [
          | inl absent ↦ absurd (ground (arith, absent))
          | inr (slot, there) ↦
              let same : cut.drawn ≡ s.drawn = ground (arith, there) in
              let d : IsDead cut id (count_fired s.fired id) = record {
                gone = ground (arith, there, eq_refl id, get-remove s.jobs id id);
                never = λ n later e.
                    absurd (ground (arith, there, h.fresh n (omega (arith, later, same)), e));
                fired = ground (arith, there);
              } in
              (perform_all-IsDead after cut id (count_fired s.fired id) small'
                (cancel-Sane new_id distinct cap next_time dispatch s id h) d).fired
        ]
