-- ===== src/Runtime/Callbacks.antt =====
-- callbacks.py: the queue of event callbacks, delivered until the receiver acknowledges them.
pub mod Delivery
use Prim.Native.String.{◌++◌ as append}
use meeting_bot_service.Prelude.{
  ℕ, suc, Bool, true, false, ◌&&◌, not, String, Option, none, some, List, [], ◌∷◌, ◌++◌, Dict, get,
  put, remove, length, ltb, leb, ◌==◌, show_nat, if◌then◌else◌,
}
use meeting_bot_service.Runtime.Models.{RuntimeEvent}

-- one pending delivery; `event` is the event's dictionary
pub record Pending : Type 0 where
  pub url : String
  pub headers : Dict String
  pub event : RuntimeEvent
  pub attempts : ℕ

-- a CallbackQueue over InMemoryPendingStore
pub record CallbackQueue : Type 0 where
  pub pending : Dict Pending
  pub seq : ℕ

-- the result of a poster: a status code, or `none` where it raises
abbrev pub Poster : Type 0
Poster = Pending → Option ℕ

-- the receiver acknowledges
abbrev pub acked : Option ℕ → Bool
acked none = false
acked (some code) = ltb code 400

-- `self.max_attempts and rec["attempts"] >= self.max_attempts`
abbrev pub exhausted : ℕ → ℕ → Bool
exhausted max_attempts attempts = if max_attempts == 0 then false else leb max_attempts attempts

-- the record after one more attempt
abbrev pub counted : Pending → Pending
counted rec = record rec { attempts = suc rec.attempts }

-- what an attempt leaves of the stored records
unfoldable pub settle_attempt : Dict Pending → String → Pending → ℕ → Option ℕ → Dict Pending × Bool
settle_attempt pending key rec max_attempts answer =
    if acked answer
    then (remove pending key, true)
    else if exhausted max_attempts rec.attempts
    then (remove pending key, false)
    else (put pending key rec, false)

-- _attempt, where the poster is handed the counted record
unfoldable pub attempt : ℕ → Poster → Dict Pending → String → Dict Pending × Bool
unfolding settle_attempt
attempt max_attempts poster pending key = elim (get pending key) [
  | none ↦ (pending, true)
  | some rec ↦ settle_attempt pending key (counted rec) max_attempts (poster (counted rec))
]

-- enqueue, with its immediate attempt, and the key
unfoldable pub enqueue :
    ℕ → Poster → CallbackQueue → String → RuntimeEvent → Dict String → CallbackQueue × String
unfolding attempt
enqueue max_attempts poster q url event headers =
    let key = append "cb-" (show_nat (suc q.seq)) in
    let stored =
      put q.pending key (record { url = url; headers = headers; event = event; attempts = 0 }) in
    (record { pending = (attempt max_attempts poster stored key).0; seq = suc q.seq }, key)

abbrev pub keys : Dict Pending → List String
keys [] = []
keys ((k, rec) ∷ d) = k ∷ keys d

-- the loop of the sweep, over the keys as they stood at its start
unfoldable pub attempt_all : ℕ → Poster → Dict Pending → List String → Dict Pending
unfolding attempt
attempt_all max_attempts poster pending [] = pending
attempt_all max_attempts poster pending (k ∷ ks) =
    attempt_all max_attempts poster (attempt max_attempts poster pending k).0 ks

-- pending_count
abbrev pub pending_count : CallbackQueue → ℕ
pending_count q = length q.pending

-- sweep
unfoldable pub sweep : ℕ → Poster → CallbackQueue → CallbackQueue × ℕ
unfolding attempt_all
sweep max_attempts poster q =
    let q' = record q { pending = attempt_all max_attempts poster q.pending (keys q.pending) } in
    (q', pending_count q')
