-- ===== src/Webhooks/Retry.antt =====
-- webhooks/retry.py: the retry queue of failed deliveries, its worker sweep, and the dead letters.
-- Times are whole seconds. The queue holds entries as texts: `corrupt` is a text that is no entry.
pub mod Bounds
pub mod Sweep
use mathlib.Core.Option
use meeting_bot_service.Prelude.{
  ℕ, zero, suc, ◌+◌, ◌-◌, ◌<◌, Bool, true, false, String, Option, none, some, List, [], ◌∷◌, ◌++◌,
  ltb, leb, length, get_or, ◌==◌, ◌||◌, is_some, if◌then◌else◌,
}

-- BACKOFF_SCHEDULE
abbrev pub backoff_schedule : List ℕ
backoff_schedule = 60 ∷ 300 ∷ 1800 ∷ 7200 ∷ []

-- MAX_AGE_SECONDS
abbrev pub max_age_seconds : ℕ
max_age_seconds = 86400

-- DEAD_LETTER_MAX
abbrev pub dead_letter_max : ℕ
dead_letter_max = 1000

-- a queued delivery; payload and metadata are opaque texts
pub record Entry : Type 0 where
  pub url : String
  pub payload : String
  pub webhook_secret : Option String
  pub label : String
  pub attempt : ℕ
  pub next_retry_at : ℕ
  pub created_at : ℕ
  pub metadata : Option String

pub data Item : Type 0 where
  entry : Entry → Item
  corrupt : String → Item

pub data DeadReason : Type 0 where
  max_age_exceeded schedule_exhausted : DeadReason

pub record DeadLetter : Type 0 where
  pub url : String
  pub payload : String
  pub label : String
  pub attempts : ℕ
  pub reason : DeadReason
  pub last_status_code : Option ℕ
  pub last_error : Option String
  pub created_at : ℕ
  pub dead_lettered_at : ℕ
  pub metadata : Option String

-- the two Redis lists
pub record Redis : Type 0 where
  pub queue : List Item
  pub dead_letters : List DeadLetter

-- RetryQueue.enqueue, at the time `ts`
unfoldable pub enqueue :
    Redis → String → String → Option String → String → Option String → ℕ → Redis
enqueue r url payload secret label metadata ts = record r {
  queue =
      r.queue
      ++ (entry (record {
        url = url;
        payload = payload;
        webhook_secret = secret;
        label = label;
        attempt = 0;
        next_retry_at = ts + get_or backoff_schedule 0 0;
        created_at = ts;
        metadata = metadata;
      }))
        ∷ [];
}

-- RetryQueue.depth
unfoldable pub depth : Redis → ℕ
depth r = length r.queue

-- What the transport answers: a status code, or an exception with its text.
pub data Response : Type 0 where
  status : ℕ → Response
  transport_error : String → Response

-- `_deliver_one`: done with the entry, the status code, the error. `http_error` is the text
-- `HTTP {code}`.
unfoldable pub deliver_one : (ℕ → String) → Response → Bool × Option ℕ × Option String
deliver_one http_error (status code) =
    if ltb code 300
    then (true, some code, none)
    else if leb 500 code || code == 429
    then (false, some code, some (http_error code))
    else (true, some code, some (http_error code))
deliver_one http_error (transport_error text) = (false, none, some text)

-- `ltrim key -n -1`: the newest n
unfoldable pub keep_newest {ℓ} : {A : Type ℓ} → ℕ → List A → List A
keep_newest n [] = []
keep_newest n (x ∷ xs) = if ltb n (length (x ∷ xs)) then keep_newest n xs else x ∷ xs

-- _dead_letter
unfoldable pub dead_letter : Redis → Entry → DeadReason → Option ℕ → Option String → ℕ → Redis
dead_letter r e reason code error now = record r {
  dead_letters = keep_newest dead_letter_max (
      r.dead_letters
      ++ (record {
        url = e.url;
        payload = e.payload;
        label = e.label;
        attempts = e.attempt;
        reason = reason;
        last_status_code = code;
        last_error = error;
        created_at = e.created_at;
        dead_lettered_at = now;
        metadata = e.metadata;
      })
        ∷ []);
}

-- The state of a sweep: the lists, the entries to put back, the count, and the entries whose
-- delivery was tried.
pub record Drain : Type 0 where
  pub redis : Redis
  pub requeue : List Item
  pub processed : ℕ
  pub tried : List Entry

-- the entry after a failed try: its next attempt, later by the schedule
abbrev pub bumped : Entry → ℕ → Entry
bumped e clock = record e {
  attempt = suc e.attempt;
  next_retry_at = clock + get_or backoff_schedule (suc e.attempt) 0;
}

-- what follows a delivery
unfoldable pub after_try : Drain → Entry → ℕ → Bool × Option ℕ × Option String → Drain
unfolding dead_letter
after_try d e clock (true, code, error) = d
after_try d e clock (false, code, error) =
    if leb (length backoff_schedule) (suc e.attempt)
    then record d { redis = dead_letter d.redis e schedule_exhausted code error clock }
    else record d { requeue = d.requeue ++ entry (bumped e clock) ∷ [] }

-- `transport n e` is the answer to the n-th try of the sweep, which is for `e`
module _ (transport : ℕ → Entry → Response) (http_error : ℕ → String) (clock : ℕ) where
  -- the body of the sweep's loop for an item that was popped
  unfoldable pub drain_item : Drain → Item → Drain
  unfolding after_try dead_letter
  drain_item d (corrupt text) = record d { processed = suc d.processed }
  drain_item d (entry e) =
      if ltb (e.created_at + max_age_seconds) clock
      then record d {
        redis = dead_letter d.redis e max_age_exceeded none none clock;
        processed = suc d.processed;
      }
      else if ltb clock e.next_retry_at
      then record d { requeue = d.requeue ++ entry e ∷ [] }
      else after_try (record d { processed = suc d.processed; tried = d.tried ++ e ∷ [] }) e clock
          (deliver_one http_error (transport (length d.tried) e))

  -- `for _ in range(queue_len): lpop …` over the queue as it stood at the start
  unfoldable pub drain_items : Drain → List Item → Drain
  unfolding drain_item
  drain_items d [] = d
  drain_items d (i ∷ is) = drain_items (drain_item d i) is

  -- drain_retry_queue: the lists left, the entries tried, and the number processed
  unfoldable pub drain_retry_queue : Redis → Drain
  unfolding drain_items
  drain_retry_queue r =
      let d =
        drain_items
          (record { redis = record r { queue = [] }; requeue = []; processed = 0; tried = [] })
          r.queue in
      record d { redis = record d.redis { queue = d.redis.queue ++ d.requeue }; requeue = [] }
