-- ===== src/Webhooks/Retry/Bounds.antt =====
-- What holds of the retry queue over any sequence of enqueues and sweeps.
use meeting_bot_service.Prelude.{
  ℕ, zero, suc, ◌+◌, ◌≤◌, ◌<◌, String, Option, List, [], ◌∷◌, ◌≡◌, length, get_or, All, arith,
}
use meeting_bot_service.Webhooks.Retry.{
  Entry, Item, entry, corrupt, Redis, Response, Drain, backoff_schedule, max_age_seconds,
  dead_letter_max, enqueue, keep_newest, drain_retry_queue,
}

-- the waits that an entry with this many failed sweeps has had, from its first failure on
abbrev pub waited : ℕ → ℕ
waited zero = get_or backoff_schedule 0 0
waited (suc n) = waited n + get_or backoff_schedule (suc n) 0

-- an entry is within the schedule, and not due before the schedule's waits have passed
abbrev pub IsScheduled : Item → Type 0
IsScheduled (entry e) = (e.attempt < 4) × (e.created_at + waited e.attempt ≤ e.next_retry_at)
IsScheduled (corrupt text) = Unit

-- the queue is scheduled, and the dead letters are within their cap
pub record IsBounded (r : Redis) : Type 0 where
  pub scheduled : All IsScheduled r.queue
  pub capped : length r.dead_letters ≤ dead_letter_max

-- an entry may be tried at this time: it is due and not too old
abbrev pub IsDue : ℕ → Entry → Type 0
IsDue clock e = (e.next_retry_at ≤ clock) × (clock ≤ e.created_at + max_age_seconds)

pub length-keep_newest {ℓ} : {A : Type ℓ} (n : ℕ) (xs : List A) → length (keep_newest n xs) ≤ n
unfolding keep_newest
length-keep_newest n [] = omega arith
length-keep_newest n (x ∷ xs) = ground (arith, length-keep_newest n xs)

module _ (transport : ℕ → Entry → Response) (http_error : ℕ → String) (clock : ℕ) where
  record IsDraining (d : Drain) : Type 0 where
    scheduled : All IsScheduled d.requeue
    capped : length d.redis.dead_letters ≤ dead_letter_max
    due : All (IsDue clock) d.tried
    emptied : d.redis.queue ≡ []

-- one thing that happens to the queue: a failed delivery is put in, or a worker sweeps
pub data Event : Type 0 where
  put_in : String → String → Option String → String → Option String → ℕ → Event
  sweep : (ℕ → Entry → Response) → ℕ → Event

module _ (http_error : ℕ → String) where
  unfoldable pub happen : Redis → Event → Redis
  happen r (put_in url payload secret label metadata ts) =
      enqueue r url payload secret label metadata ts
  happen r (sweep transport clock) = (drain_retry_queue transport http_error clock r).redis

  unfoldable pub happen_all : Redis → List Event → Redis
  unfolding happen
  happen_all r [] = r
  happen_all r (e ∷ es) = happen_all (happen r e) es
