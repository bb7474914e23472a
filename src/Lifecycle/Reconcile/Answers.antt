-- ===== src/Lifecycle/Reconcile/Answers.antt =====
-- What the answers to a sweep tell of a meeting, apart from the code.
use meeting_bot_service.Prelude.{
  false, ℕ, ◌-◌, ◌<◌, ◌&&◌, String, Option, none, some, List, [], ◌∷◌, ◌++◌, ◌≡◌, ◌≢◌, ap, ◌∙◌,
  true, is_empty, eq_iff, ◌⊎◌, inl, inr, refl, get, arith, Option-cases, Bool-cases,
}
use meeting_bot_service.Lifecycle.Reconcile.{
  Call, asked_state, Ports, deleted, Verdict, confirmed, failed, Liveness, gone, alive, unknown,
  Lookup, lookup_error, not_found, found_state, is_alive_state, workload_of, Tracker,
}
use meeting_bot_service.Lifecycle.Reconcile.Sweeps.{Row, is_live_nonterminal, has_container}

-- there is a runtime, and this is the workload of the meeting
abbrev pub IsWorkload : Ports → Option String → String → Type 0
IsWorkload ports container id = (ports.has_runtime ≡ true) × (container ≡ some id) × (id ≢ "")

-- there is no runtime, or the meeting has no workload
abbrev pub HasNoWorkload : Ports → Option String → Type 0
HasNoWorkload ports container =
    (ports.has_runtime ≡ false) ⊎ (container ≡ none) ⊎ (container ≡ some "")

-- no bot is quiet in the meeting: it is in neither of the statuses of a bot that is, or has no workload
abbrev pub IsUnwatched : Row → Type 0
IsUnwatched row =
    ((row.status ≢ "active") × (row.status ≢ "needs_help"))
    ⊎ (row.container ≡ none)
    ⊎ (row.container ≡ some "")

-- asked after these calls, the runtime confirmed the teardown; or there is nothing to tear down
abbrev pub IsTornDown : Ports → List Call → Option String → Type 0
IsTornDown ports calls container =
    HasNoWorkload ports container
    ⊎ ((id : String) × IsWorkload ports container id × (ports.delete_workload calls id ≡ deleted))

-- asked after these calls, the runtime reported a state in which a workload is dead, and asked to
-- delete it right after that, it confirmed the teardown
abbrev pub IsGone : Ports → List Call → Option String → Type 0
IsGone ports calls container =
    (id : String) × (state : String) × IsWorkload ports container id
    × (ports.get_workload calls id ≡ found_state state)
    × (state ≢ "starting")
    × (state ≢ "running")
    × (state ≢ "stopping")
    × (ports.delete_workload (calls ++ asked_state id (found_state state) ∷ []) id ≡ deleted)

-- the meeting has been untracked since before the window
abbrev pub IsOverdue : Tracker → String → ℕ → ℕ → Type 0
IsOverdue tracker id grace now = (first : ℕ) × (get tracker id ≡ some first) × (grace < now - first)

pub Lookup-cases :
    (l : Lookup) → (l ≡ lookup_error) ⊎ ((l ≡ not_found) ⊎ ((s : String) × (l ≡ found_state s)))
Lookup-cases lookup_error = inl refl
Lookup-cases not_found = inr (inl refl)
Lookup-cases (found_state s) = inr (inr (s, refl))

pub workload_of-IsWorkload :
    (ports : Ports) (container : Option String)
    → ((workload_of ports.has_runtime container ≡ none) × HasNoWorkload ports container)
      ⊎ ((id : String) × (workload_of ports.has_runtime container ≡ some id)
          × IsWorkload ports container id)
unfolding workload_of
workload_of-IsWorkload ports none = elim (Bool-cases ports.has_runtime) [
  | inl here ↦ inl (ground (arith, here), inr (inl refl))
  | inr away ↦ inl (ground (arith, away), inl away)
]
workload_of-IsWorkload ports (some id) = elim (Bool-cases ports.has_runtime) [
  | inr away ↦ inl (ground (arith, away), inl away)
  | inl here ↦ elim (Bool-cases (is_empty id)) [
    | inl blank ↦ inl (ground (arith, here, blank), inr (inr (ap some ((eq_iff id "").0 blank))))
    | inr named ↦
        inr (
          id,
          ground (arith, here, named),
          (here, refl, λ e. ground (arith, named, e, eq_iff id "")),
        )
  ]
]

pub is_live-IsUnwatched :
    (row : Row)
    → is_live_nonterminal row.status && has_container row.container ≡ false
    → IsUnwatched row
is_live-IsUnwatched row h = elim (Option-cases row.container) [
  | inl nothing ↦ inr (inl nothing)
  | inr (id, held) ↦ elim (Bool-cases (is_empty id)) [
    | inl blank ↦ inr (inr (held ∙ ap some ((eq_iff id "").0 blank)))
    | inr named ↦
        let idle : is_live_nonterminal row.status ≡ false = ground (arith, h, held, named) in
        inl (
          λ e. ground (arith, idle, e, eq_iff row.status "active"),
          λ e. ground (arith, idle, e, eq_iff row.status "needs_help"),
        )
  ]
]

pub dead_states :
    (s : String) → is_alive_state s ≡ false → (s ≢ "starting") × (s ≢ "running") × (s ≢ "stopping")
dead_states s h = (
  λ e. ground (arith, h, e, eq_iff s "starting"),
  λ e. ground (arith, h, e, eq_iff s "running"),
  λ e. ground (arith, h, e, eq_iff s "stopping"),
)

pub verdict_cases : (v : Verdict) → (v ≡ confirmed) ⊎ ((v ≡ Verdict.untracked) ⊎ (v ≡ failed))
verdict_cases confirmed = inl refl
verdict_cases Verdict.untracked = inr (inl refl)
verdict_cases failed = inr (inr refl)

pub liveness_cases :
    (l : Liveness) → (l ≡ gone) ⊎ ((l ≡ Liveness.untracked) ⊎ ((l ≡ alive) ⊎ (l ≡ unknown)))
liveness_cases gone = inl refl
liveness_cases Liveness.untracked = inr (inl refl)
liveness_cases alive = inr (inr (inl refl))
liveness_cases unknown = inr (inr (inr refl))
