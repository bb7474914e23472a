-- ===== src/Webhooks/Retry/Sweep.antt =====
-- The sweep against a description of what becomes of each item.
use meeting_bot_service.Prelude.{
  ◌&&◌, bit, ℕ, suc, ◌+◌, ◌≤◌, Bool, true, false, String, Option, none, List, [], ◌∷◌, ◌++◌, ◌≡◌,
  refl, sym, ap, ◌∙◌, ltb, leb, length, length-append, arith, Bool-cases, inl, inr, if◌then◌else◌,
}
use mathlib.Core.List.{append_assoc, append-nil}
use meeting_bot_service.Webhooks.Retry.Bounds.{length-keep_newest}
use meeting_bot_service.Webhooks.Retry.{
  Entry, Item, entry, corrupt, DeadReason, max_age_exceeded, schedule_exhausted, DeadLetter, Redis,
  Response, Drain, max_age_seconds, dead_letter_max, deliver_one, keep_newest, dead_letter, bumped,
  after_try, drain_item, drain_items, drain_retry_queue,
}

keep_newest_short {ℓ} : {A : Type ℓ} (n : ℕ) (xs : List A) → length xs ≤ n → keep_newest n xs ≡ xs
unfolding keep_newest
keep_newest_short n [] h = refl
keep_newest_short n (x ∷ xs) h = ground arith

-- trimming after each write is trimming once at the end
keep_newest-append {ℓ} :
    {A : Type ℓ} (n : ℕ) (xs ys : List A)
    → keep_newest n (keep_newest n xs ++ ys) ≡ keep_newest n (xs ++ ys)
unfolding keep_newest
keep_newest-append n [] ys = refl
keep_newest-append n (x ∷ xs) ys = elim (Bool-cases (ltb n (length (x ∷ xs)))) [
  | inl long ↦ rw (long) (keep_newest-append n xs ys ∙ ground (arith, length-append xs ys))
  | inr short ↦ ground arith
]

-- the letter that is written for an entry
unfoldable pub letter : Entry → DeadReason → Option ℕ → Option String → ℕ → DeadLetter
letter e reason code error now = record {
  url = e.url;
  payload = e.payload;
  label = e.label;
  attempts = e.attempt;
  reason = reason;
  last_status_code = code;
  last_error = error;
  created_at = e.created_at;
  dead_lettered_at = now;
  metadata = e.metadata;
}

-- what becomes of an item in a sweep
pub data Fate : Type 0 where
  dropped delivered : Fate
  buried : DeadLetter → Fate
  kept_back rescheduled : Item → Fate

abbrev pub left_of : Fate → List Item
left_of (kept_back i) = i ∷ []
left_of (rescheduled i) = i ∷ []
left_of _ = []

abbrev pub is_processed : Fate → Bool
is_processed (kept_back i) = false
is_processed _ = true

abbrev pub letters_of : Fate → List DeadLetter
letters_of (buried l) = l ∷ []
letters_of _ = []

abbrev pub gather {ℓ} : {A : Type ℓ} → (Fate → List A) → List Fate → List A
gather pick [] = []
gather pick (f ∷ fs) = pick f ++ gather pick fs

abbrev pub count_processed : List Fate → ℕ
count_processed [] = 0
count_processed (f ∷ fs) = bit (is_processed f) + count_processed fs

module _ (transport : ℕ → Entry → Response) (http_error : ℕ → String) (clock : ℕ) where
  -- the fate of an entry whose delivery was tried
  unfoldable pub verdict : Entry → Bool × Option ℕ × Option String → Fate
  verdict e (true, code, error) = delivered
  verdict e (false, code, error) =
      if ltb e.attempt 3
      then rescheduled (entry (bumped e clock))
      else buried (letter e schedule_exhausted code error clock)

  -- is the item's delivery tried
  abbrev pub is_tried : Item → Bool
  is_tried (corrupt text) = false
  is_tried (entry e) = leb clock (e.created_at + max_age_seconds) && leb e.next_retry_at clock

  -- the fate of an item when n deliveries of the sweep were tried before
  unfoldable pub fate : ℕ → Item → Fate
  unfolding verdict
  fate n (corrupt text) = dropped
  fate n (entry e) =
      if is_tried (entry e)
      then verdict e (deliver_one http_error (transport n e))
      else if leb clock (e.created_at + max_age_seconds)
      then kept_back (entry e)
      else buried (letter e max_age_exceeded none none clock)

  unfoldable pub fates : ℕ → List Item → List Fate
  fates n [] = []
  fates n (i ∷ is) = fate n i ∷ fates (n + bit (is_tried i)) is

  -- how one item moves the state of the sweep
  record Moves (d d' : Drain) (f : Fate) (more : ℕ) : Type 0 where
    queue : d'.redis.queue ≡ d.redis.queue
    requeue : d'.requeue ≡ d.requeue ++ left_of f
    letters :
        d'.redis.dead_letters ≡ keep_newest dead_letter_max (d.redis.dead_letters ++ letters_of f)
    processed : d'.processed ≡ d.processed + bit (is_processed f)
    tried : length d'.tried ≡ length d.tried + more

  unchanged :
      (d : Drain)
      → length d.redis.dead_letters ≤ dead_letter_max
      → (d.requeue ≡ d.requeue ++ [])
        × (d.redis.dead_letters ≡ keep_newest dead_letter_max (d.redis.dead_letters ++ []))
  unchanged d h = (
    sym (append-nil d.requeue),
    sym (
        ap (keep_newest dead_letter_max) (append-nil d.redis.dead_letters)
        ∙ keep_newest_short dead_letter_max d.redis.dead_letters h),
  )

  -- what follows a try, past the count of it
  record Settles (d d' : Drain) (f : Fate) : Type 0 where
    queue : d'.redis.queue ≡ d.redis.queue
    requeue : d'.requeue ≡ d.requeue ++ left_of f
    letters :
        d'.redis.dead_letters ≡ keep_newest dead_letter_max (d.redis.dead_letters ++ letters_of f)
    processed : d'.processed ≡ d.processed
    tried : d'.tried ≡ d.tried
    counted : is_processed f ≡ true

  after_try-Settles :
      (d : Drain) (e : Entry) (out : Bool × Option ℕ × Option String)
      → length d.redis.dead_letters ≤ dead_letter_max
      → Settles d (after_try d e clock out) (verdict e out)
  unfolding after_try verdict dead_letter letter
  after_try-Settles d e (true, code, error) h = ground (arith, unchanged d h)
  after_try-Settles d e (false, code, error) h = ground (arith, unchanged d h)

  drain_item-Moves :
      (d : Drain) (i : Item)
      → length d.redis.dead_letters ≤ dead_letter_max
      → Moves d
          (drain_item transport http_error clock d i)
          (fate (length d.tried) i)
          (bit (is_tried i))
  unfolding drain_item fate dead_letter letter
  drain_item-Moves d (corrupt text) h = ground (arith, unchanged d h)
  drain_item-Moves d (entry e) h =
      let out = deliver_one http_error (transport (length d.tried) e) in
      let counted : Drain = record d { processed = suc d.processed; tried = d.tried ++ e ∷ [] } in
      ground
        (arith, unchanged d h, after_try-Settles counted e out h, length-append d.tried (e ∷ []))

  -- the whole sweep: what it puts back, the letters, and the count
  record Swept (d d' : Drain) (fs : List Fate) : Type 0 where
    queue : d'.redis.queue ≡ d.redis.queue
    requeue : d'.requeue ≡ d.requeue ++ gather left_of fs
    letters :
        d'.redis.dead_letters
        ≡ keep_newest dead_letter_max (d.redis.dead_letters ++ gather letters_of fs)
    processed : d'.processed ≡ d.processed + count_processed fs

  drain_items-Swept :
      (is : List Item) (d : Drain) (n : ℕ)
      → n ≡ length d.tried
      → length d.redis.dead_letters ≤ dead_letter_max
      → Swept d (drain_items transport http_error clock d is) (fates n is)
  unfolding drain_items fates
  drain_items-Swept [] d n same h = ground (arith, unchanged d h)
  drain_items-Swept (i ∷ is) d n same h =
      let d' = drain_item transport http_error clock d i in
      let f = fate n i in
      let m : Moves d d' f (bit (is_tried i)) = rw same (drain_item-Moves d i h) in
      let cap : length d'.redis.dead_letters ≤ dead_letter_max =
        rw m.letters (length-keep_newest dead_letter_max (d.redis.dead_letters ++ letters_of f)) in
      let later = drain_items-Swept is d' (n + bit (is_tried i)) (omega (arith, m.tried)) cap in
      let rest = fates (n + bit (is_tried i)) is in
      record {
        queue = later.queue ∙ m.queue;
        requeue = ground (
          arith,
          later.requeue,
          m.requeue,
          append_assoc d.requeue (left_of f) (gather left_of rest),
        );
        letters = ground (
          arith,
          later.letters,
          m.letters,
          keep_newest-append dead_letter_max (d.redis.dead_letters ++ letters_of f)
              (gather letters_of rest),
          append_assoc d.redis.dead_letters (letters_of f) (gather letters_of rest),
        );
        processed = omega (arith, later.processed, m.processed);
      }

  -- Where the dead letters are within their cap, a sweep leaves in the queue, in order, exactly what
  -- the fates of its items leave; the dead letters are the newest thousand of the old ones and those
  -- of the buried items; and every item but those kept back is counted.
  pub drain-fates :
      (r : Redis)
      → length r.dead_letters ≤ dead_letter_max
      → let after = drain_retry_queue transport http_error clock r in
        let fs = fates 0 r.queue in
        (after.redis.queue ≡ gather left_of fs)
        × (after.redis.dead_letters
            ≡ keep_newest dead_letter_max (r.dead_letters ++ gather letters_of fs))
        × (after.processed ≡ count_processed fs)
  unfolding drain_retry_queue
  drain-fates r h =
      let begun : Drain = record {
        redis = record r { queue = [] };
        requeue = [];
        processed = 0;
        tried = [];
      } in
      let s = drain_items-Swept r.queue begun 0 refl h in
      (rw (s.queue) s.requeue, s.letters, omega (arith, s.processed))
