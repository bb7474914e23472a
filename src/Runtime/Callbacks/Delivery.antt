-- ===== src/Runtime/Callbacks/Delivery.antt =====
-- What a sweep leaves pending.
use meeting_bot_service.Prelude.{
  ℕ, suc, Bool, true, false, String, Option, none, some, List, [], ◌∷◌, ◌≡◌, refl, Dict, get,
  get-put, get-remove, str_eq, eq_iff, arith, Option-cases, inl, inr, is_some, if◌then◌else◌,
}
use meeting_bot_service.Runtime.Callbacks.{
  Pending, CallbackQueue, Poster, acked, exhausted, counted, settle_attempt, attempt, attempt_all,
  keys, sweep,
}

-- what one attempt makes of the record under its key
unfoldable pub after : ℕ → Poster → Pending → Option Pending
after max_attempts poster rec =
    if acked (poster (counted rec))
    then none
    else if exhausted max_attempts (suc rec.attempts)
    then none
    else some (counted rec)

abbrev pub then_after : ℕ → Poster → Option Pending → Option Pending
then_after max_attempts poster none = none
then_after max_attempts poster (some rec) = after max_attempts poster rec

abbrev mem : String → List String → Bool
mem j [] = false
mem j (k ∷ ks) = if str_eq k j then true else mem j ks

-- no key twice
abbrev pub IsUnique : List String → Type 0
IsUnique [] = Unit
IsUnique (k ∷ ks) = (mem k ks ≡ false) × IsUnique ks

module _ (max_attempts : ℕ) (poster : Poster) where
  get-attempt :
      (pending : Dict Pending) (k j : String)
      → get (attempt max_attempts poster pending k).0 j
        ≡ (if str_eq k j then then_after max_attempts poster (get pending j) else get pending j)
  unfolding attempt settle_attempt after
  get-attempt pending k j = elim (Option-cases (get pending k)) [
    | inl gone ↦ ground (arith, gone, eq_iff k j)
    | inr (rec, found) ↦
        ground (arith, found, eq_iff k j, get-put pending k j (counted rec), get-remove pending k j)
  ]

  get-attempt_all :
      (ks : List String) (pending : Dict Pending) (j : String)
      → IsUnique ks
      → get (attempt_all max_attempts poster pending ks) j
        ≡ (if mem j ks then then_after max_attempts poster (get pending j) else get pending j)
  unfolding attempt_all
  get-attempt_all [] pending j set = refl
  get-attempt_all (k ∷ ks) pending j set = ground (
    arith,
    eq_iff k j,
    get-attempt pending k j,
    get-attempt_all ks (attempt max_attempts poster pending k).0 j set.1,
    set.0,
  )

  mem-keys : (d : Dict Pending) (j : String) → mem j (keys d) ≡ is_some (get d j)
  unfolding get
  mem-keys [] j = refl
  mem-keys ((k, rec) ∷ d) j = ground (arith, mem-keys d j)

  -- A sweep tries every pending delivery once: one whose receiver acknowledges it is gone, and so is
  -- one that a finite cap of attempts is reached by; every other stays, with one attempt more.
  get-sweep :
      (q : CallbackQueue) (key : String)
      → IsUnique (keys q.pending)
      → get (sweep max_attempts poster q).0.pending key
        ≡ then_after max_attempts poster (get q.pending key)
  unfolding sweep
  get-sweep q key set =
      ground (arith, get-attempt_all (keys q.pending) q.pending key set, mem-keys q.pending key)
