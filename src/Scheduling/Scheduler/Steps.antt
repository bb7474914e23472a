-- ===== src/Scheduling/Scheduler/Steps.antt =====
-- Every call of the scheduler keeps its invariant.
use meeting_bot_service.Prelude.{
  ℕ, suc, ◌+◌, ◌≤◌, String, Option, none, some, List, [], ◌∷◌, ◌++◌, ◌≡◌, ◌≢◌, refl, ◌∙◌, get, put,
  remove, eq_iff, arith, Option-cases, Bool-cases, inl, inr, ltb, length,
}
use meeting_bot_service.Scheduling.Scheduler.{
  executing, completed, Request, default_retry, Spec, Job, Scheduler, Dispatched, returned, threw,
  truthy, make_job, resolve_execute_at, file, schedule, cancel, reschedule_cron, after_failure,
  after_success, settle, process, process_all,
}
use meeting_bot_service.Scheduling.Scheduler.Firing.{
  count_fired, count_fired-append, IsBounded, Sane, put-IsSane, take-IsSane, remove-IsSane,
  draw-IsSane,
}

module _ (new_id : ℕ → String) (distinct : (m n : ℕ) → new_id m ≡ new_id n → m ≡ n) (cap : ℕ) where
  module _ (next_time : String → ℕ → ℕ) (dispatch : ℕ → Request → Dispatched) where
    file-Sane :
        (s : Scheduler) (job : Job) (key : Option String)
        → Sane new_id distinct cap s
        → job.job_id ≡ new_id s.drawn
        → IsBounded cap job.retry
        → Sane new_id distinct cap
            (file new_id next_time dispatch (record s { drawn = suc s.drawn }) job key).0
    unfolding file
    file-Sane s job key h named small =
        let drawn = draw-IsSane new_id distinct cap s.jobs s.fired s.drawn h in
        let put_in =
          put-IsSane new_id distinct cap s.jobs s.fired (suc s.drawn) job.job_id
            (record { job = job; score = job.execute_at }) drawn refl
            (ground (arith, named, small, h.fresh s.drawn (omega arith))) (omega (arith, small))
            (small.2) (λ n later e. omega (arith, later, distinct n s.drawn (e ∙ named))) in
        elim (Option-cases key) [
          | inl unkeyed ↦ rw (unkeyed, file) put_in
          | inr (k, keyed) ↦ elim (Option-cases (get s.idem k)) [
            | inl new ↦ rw (keyed, new, file) put_in
            | inr (old, known) ↦ rw (keyed, known, file) drawn
          ]
        ]

    pub make_job-made :
        (s : Scheduler) (spec : Spec) (now : ℕ) (job : Job)
        → make_job new_id next_time dispatch s spec now ≡ some job
        → (job.job_id ≡ new_id s.drawn) × (job.retry ≡ spec.retry)
    unfolding make_job resolve_execute_at
    make_job-made s spec now job made = ground arith

    pub schedule-Sane :
        (s : Scheduler) (spec : Spec) (now : ℕ)
        → Sane new_id distinct cap s
        → IsBounded cap spec.retry
        → Sane new_id distinct cap (schedule new_id next_time dispatch s spec now).0
    unfolding schedule
    schedule-Sane s spec now h small =
        elim (Option-cases (make_job new_id next_time dispatch s spec now)) [
          | inl bad ↦ rw (bad, schedule) h
          | inr (job, made) ↦
              let (named, same) = make_job-made s spec now job made in
              rw (made, schedule)
                (file-Sane s job (truthy job.idempotency_key) h named (rw same small))
        ]

    pub cancel-Sane :
        (s : Scheduler) (id : String)
        → Sane new_id distinct cap s
        → Sane new_id distinct cap (cancel new_id next_time dispatch s id).0
    unfolding cancel
    cancel-Sane s id h = elim (Option-cases (get s.jobs id)) [
      | inl gone ↦ rw (gone, cancel) h
      | inr (slot, there) ↦
          rw (there, cancel) (remove-IsSane new_id distinct cap s.jobs s.fired s.drawn id h)
    ]

    reschedule-Sane :
        (s : Scheduler) (job : Job) (now : ℕ)
        → 3 ≤ cap
        → Sane new_id distinct cap s
        → Sane new_id distinct cap (reschedule_cron new_id next_time dispatch s job now)
    unfolding reschedule_cron
    reschedule-Sane s job now enough h = elim (Option-cases (truthy job.cron)) [
      | inl once ↦ rw (once, reschedule_cron) h
      | inr (cron, again) ↦
          rw (again, reschedule_cron)
            (schedule-Sane s
              (record {
                request = job.request;
                execute_at = some (next_time cron now);
                cron = some cron;
                retry = default_retry;
                metadata = job.metadata;
                idempotency_key = none;
              })
              now h (refl, omega arith, enough))
    ]

    settle-Sane :
        (s : Scheduler) (job : Job) (now : ℕ) (d : Dispatched)
        → 3 ≤ cap
        → Sane new_id distinct cap s
        → count_fired s.fired job.job_id ≡ job.retry.attempt + 1
        → job.retry.max_attempts ≤ cap
        → ((n : ℕ) → s.drawn ≤ n → new_id n ≢ job.job_id)
        → Sane new_id distinct cap (settle new_id next_time dispatch s job now d)
    unfolding settle after_failure after_success
    settle-Sane s job now (returned result) enough h counted most old =
        let done : Job = record job {
          status = completed;
          result = some result;
          completed_at = some now;
        } in
        reschedule-Sane
          (record s {
            running = remove s.running job.job_id;
            history = put s.history job.job_id done;
          })
          done now enough h
    settle-Sane s job now (threw error) enough h counted most old =
        elim (Bool-cases (ltb (job.retry.attempt + 1) job.retry.max_attempts)) [
          | inl more ↦
              rw (more, after_failure)
                (put-IsSane new_id distinct cap s.jobs s.fired s.drawn job.job_id _ h refl counted
                  (ground (arith, more)) most old)
          | inr over ↦ rw (over, after_failure) h
        ]

    pub process-Sane :
        (now : ℕ) (s : Scheduler) (id : String)
        → 3 ≤ cap
        → Sane new_id distinct cap s
        → Sane new_id distinct cap (process new_id next_time dispatch now s id)
    unfolding process
    process-Sane now s id enough h = elim (Option-cases (get s.jobs id)) [
      | inl gone ↦ rw (gone, process) h
      | inr (slot, there) ↦
          let (named, counted, more, most) = h.filed id slot there in
          let job : Job = record slot.job { status = executing } in
          let taken : Scheduler = record s {
            jobs = remove s.jobs id;
            running = put s.running id job;
            fired = s.fired ++ (id, now) ∷ [];
          } in
          rw (there, process)
            (settle-Sane taken job now (dispatch (length s.fired) job.request) enough
              (take-IsSane new_id distinct cap s.jobs s.fired s.drawn id slot now h there)
              (ground (
                arith,
                named,
                counted,
                eq_iff id slot.job.job_id,
                count_fired-append s.fired id slot.job.job_id now,
              ))
              most (λ n later e. absurd (ground (arith, h.fresh n later, there, named, e))))
    ]

    pub process_all-Sane :
        (now : ℕ) (ids : List String) (s : Scheduler)
        → 3 ≤ cap
        → Sane new_id distinct cap s
        → Sane new_id distinct cap (process_all new_id next_time dispatch now s ids)
    unfolding process_all
    process_all-Sane now [] s enough h = h
    process_all-Sane now (id ∷ ids) s enough h =
        process_all-Sane now ids (process new_id next_time dispatch now s id) enough
          (process-Sane now s id enough h)
