-- ===== src/Lifecycle/Reconcile/Evidence.antt =====
-- A sweep ends a meeting on evidence alone.
use meeting_bot_service.Prelude.{
  ℕ, suc, ◌+◌, String, Option, List, [], ◌∷◌, ◌++◌, ◌≡◌, ◌≢◌, inl, inr, arith, Option-cases,
}
use meeting_bot_service.Lifecycle.Reconcile.{
  Call, asked_delete, asked_state, posted, Ports, confirmed, workload_of, teardown_verdict,
}
use meeting_bot_service.Lifecycle.Reconcile.Answers.{
  IsTornDown, workload_of-IsWorkload, verdict_cases,
}
use meeting_bot_service.Lifecycle.Reconcile.Sweeps.{stopping_row}

abbrev pub count_posts : List Call → ℕ
count_posts [] = 0
count_posts (posted body ok ∷ cs) = suc (count_posts cs)
count_posts (c ∷ cs) = count_posts cs

pub count_posts-append :
    (xs ys : List Call) → count_posts (xs ++ ys) ≡ count_posts xs + count_posts ys
count_posts-append [] ys = omega arith
count_posts-append (posted body ok ∷ xs) ys = omega (arith, count_posts-append xs ys)
count_posts-append (asked_delete id a ∷ xs) ys = count_posts-append xs ys
count_posts-append (asked_state id a ∷ xs) ys = count_posts-append xs ys

module _ (ports : Ports) where
  confirmed-IsTornDown :
      (calls : List Call) (container : Option String)
      → (teardown_verdict ports calls container).1 ≡ confirmed
      → IsTornDown ports calls container
  unfolding teardown_verdict
  confirmed-IsTornDown calls container h = elim (workload_of-IsWorkload ports container) [
    | inl (_, nothing) ↦ inl nothing
    | inr (id, some_id, here) ↦ inr (id, here, ground (arith, some_id))
  ]

  teardown_posts :
      (calls : List Call) (container : Option String)
      → count_posts (teardown_verdict ports calls container).0 ≡ count_posts calls
  unfolding teardown_verdict
  teardown_posts calls container = elim (Option-cases (workload_of ports.has_runtime container)) [
    | inl nothing ↦ ground (arith, nothing)
    | inr (id, some_id) ↦ ground (
      arith,
      some_id,
      count_posts-append calls (asked_delete id (ports.delete_workload calls id) ∷ []),
    )
  ]

  -- The sweep of the stopping meetings posts a completion only for a meeting whose workload the
  -- runtime confirmed to be torn down, or that has none.
  stopping_row_evidence :
      (calls : List Call) (n : ℕ) (session : String) (container : Option String)
      → count_posts (stopping_row ports (calls, n) (session, container)).0 ≢ count_posts calls
      → IsTornDown ports calls container
  unfolding stopping_row
  stopping_row_evidence calls n session container h =
      let (calls', verdict) = teardown_verdict ports calls container in
      elim (verdict_cases verdict) [
        | inl sure ↦ confirmed-IsTornDown calls container sure
        | inr (inl lost) ↦ absurd (h (ground (arith, lost, teardown_posts calls container)))
        | inr (inr broken) ↦ absurd (h (ground (arith, broken, teardown_posts calls container)))
      ]
