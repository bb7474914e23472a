-- ===== src/Scheduling/Scheduler/Firing.antt =====
-- How often a job fires, over any sequence of calls.
use meeting_bot_service.Prelude.{
  ℕ, suc, ◌+◌, ◌≤◌, ◌<◌, String, none, some, List, [], ◌∷◌, ◌++◌, ◌≡◌, ◌≢◌, Dict, get, put, remove,
  get-put, get-remove, str_eq, eq_iff, bit, arith,
}
use meeting_bot_service.Scheduling.Scheduler.{Retry, Slot, Scheduler}

-- how often a job was dispatched
unfoldable pub count_fired : List (String × ℕ) → String → ℕ
count_fired [] id = 0
count_fired ((j, t) ∷ fired) id = bit (str_eq j id) + count_fired fired id

pub count_fired-append :
    (fired : List (String × ℕ)) (j id : String) (t : ℕ)
    → count_fired (fired ++ (j, t) ∷ []) id ≡ count_fired fired id + bit (str_eq j id)
unfolding count_fired
count_fired-append [] j id t = omega arith
count_fired-append ((i, u) ∷ fired) j id t = omega (arith, count_fired-append fired j id t)

-- the retries of a spec start at 0 and are within the cap
abbrev pub IsBounded : ℕ → Retry → Type 0
IsBounded cap r = (r.attempt ≡ 0) × (0 < r.max_attempts) × (r.max_attempts ≤ cap)

module _ (new_id : ℕ → String) (distinct : (m n : ℕ) → new_id m ≡ new_id n → m ≡ n) (cap : ℕ) where
  -- Pending jobs stand under their ids, and have been dispatched once for each attempt; an id that is
  -- still to be drawn is that of no job.
  pub record IsSane (jobs : Dict Slot) (fired : List (String × ℕ)) (drawn : ℕ) : Type 0 where
    pub filed :
        (id : String) (slot : Slot)
        → get jobs id ≡ some slot
        → (slot.job.job_id ≡ id)
          × (count_fired fired id ≡ slot.job.retry.attempt)
          × (slot.job.retry.attempt < slot.job.retry.max_attempts)
          × (slot.job.retry.max_attempts ≤ cap)
    pub fresh :
        (n : ℕ) → drawn ≤ n → (get jobs (new_id n) ≡ none) × (count_fired fired (new_id n) ≡ 0)
    pub bounded : (id : String) → count_fired fired id ≤ cap

  pub put-IsSane :
      (jobs : Dict Slot) (fired : List (String × ℕ)) (drawn : ℕ) (id : String) (slot : Slot)
      → IsSane jobs fired drawn
      → slot.job.job_id ≡ id
      → count_fired fired id ≡ slot.job.retry.attempt
      → slot.job.retry.attempt < slot.job.retry.max_attempts
      → slot.job.retry.max_attempts ≤ cap
      → ((n : ℕ) → drawn ≤ n → new_id n ≢ id)
      → IsSane (put jobs id slot) fired drawn
  put-IsSane jobs fired drawn id slot h named counted more most old = record {
    filed = λ j other found.
        ground (arith, h.filed j other, eq_iff id j, get-put jobs id j slot, found);
    fresh = λ n later. ground (
      arith,
      h.fresh n later,
      old n later,
      eq_iff id (new_id n),
      get-put jobs id (new_id n) slot,
    );
    bounded = h.bounded;
  }

  pub take-IsSane :
      (jobs : Dict Slot) (fired : List (String × ℕ)) (drawn : ℕ) (id : String) (slot : Slot)
      (now : ℕ)
      → IsSane jobs fired drawn
      → get jobs id ≡ some slot
      → IsSane (remove jobs id) (fired ++ (id, now) ∷ []) drawn
  take-IsSane jobs fired drawn id slot now h found = record {
    filed = λ j other there. ground (
      arith,
      h.filed j other,
      eq_iff id j,
      get-remove jobs id j,
      count_fired-append fired id j now,
      there,
    );
    fresh = λ n later. ground (
      arith,
      h.fresh n later,
      found,
      eq_iff id (new_id n),
      get-remove jobs id (new_id n),
      count_fired-append fired id (new_id n) now,
    );
    bounded = λ j.
        ground (
          arith,
          h.bounded j,
          h.filed id slot found,
          eq_iff id j,
          count_fired-append fired id j now,
        );
  }

  pub remove-IsSane :
      (jobs : Dict Slot) (fired : List (String × ℕ)) (drawn : ℕ) (id : String)
      → IsSane jobs fired drawn
      → IsSane (remove jobs id) fired drawn
  remove-IsSane jobs fired drawn id h = record {
    filed = λ j other there. ground (arith, h.filed j other, get-remove jobs id j, there);
    fresh = λ n later. ground (arith, h.fresh n later, get-remove jobs id (new_id n));
    bounded = h.bounded;
  }

  pub draw-IsSane :
      (jobs : Dict Slot) (fired : List (String × ℕ)) (drawn : ℕ)
      → IsSane jobs fired drawn
      → IsSane jobs fired (suc drawn)
  draw-IsSane jobs fired drawn h = record {
    filed = h.filed;
    fresh = λ n later. h.fresh n (omega arith);
    bounded = h.bounded;
  }

  abbrev pub Sane : Scheduler → Type 0
  Sane s = IsSane s.jobs s.fired s.drawn
