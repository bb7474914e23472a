-- ===== src/Runtime/Enforcement.antt =====
-- enforcement.py: the Enforcer, which stops workloads past their idle or lifetime limits. Its clock
-- is in whole seconds.
pub mod Limits
pub mod Verdicts
use meeting_bot_service.Prelude.{
  ℕ, ◌-◌, Bool, true, false, String, Option, none, some, List, [], ◌∷◌, Dict, get, put, remove, leb,
  ◌==◌, if◌then◌else◌,
}
use meeting_bot_service.Runtime.Models.{StopReason, WorkloadSpec, is_running, Profile, Substrate}
use meeting_bot_service.Runtime.Store.{WorkloadRecord, list_records}
use meeting_bot_service.Runtime.Kernel.{Result, ok, raised, Config, Runtime}
use meeting_bot_service.Runtime.Teardown.{stop}

-- the clock times of a tracked workload
pub record Track : Type 0 where
  pub started : ℕ
  pub last_active : ℕ

abbrev pub Tracked : Type 0
Tracked = Dict Track

-- Enforcer.track
unfoldable pub track : Tracked → String → ℕ → Tracked
track tracked id now = put tracked id (record { started = now; last_active = now })

-- Enforcer.touch
unfoldable pub touch : Tracked → String → ℕ → Tracked
touch tracked id now = elim (get tracked id) [
  | none ↦ tracked
  | some t ↦ put tracked id (record t { last_active = now })
]

-- Enforcer.forget
unfoldable pub forget : Tracked → String → Tracked
forget tracked id = remove tracked id

abbrev pub or_else : Option ℕ → Option ℕ → Option ℕ
or_else none b = b
or_else (some a) b = some a

-- _effective_limits: the idle limit and the lifetime limit
abbrev pub limits_by : WorkloadSpec → Option Profile → Option ℕ × Option ℕ
limits_by spec none = (spec.idle_timeout_sec, spec.max_lifetime_sec)
limits_by spec (some p) = (
  or_else spec.idle_timeout_sec p.idle_timeout_sec,
  or_else spec.max_lifetime_sec p.max_lifetime_sec,
)

unfoldable pub effective_limits : Config → WorkloadSpec → Option ℕ × Option ℕ
effective_limits cfg spec = limits_by spec (get cfg.profiles spec.profile)

-- `limit and now - since >= limit`: a limit of 0 is none
abbrev pub passed : Option ℕ → ℕ → ℕ → Bool
passed none since now = false
passed (some limit) since now = if limit == 0 then false else leb limit (now - since)

-- the limit that a tracked workload is past
unfoldable pub limit_hit : Option ℕ × Option ℕ → Track → ℕ → Option StopReason
limit_hit (idle, max_life) t now =
    if passed max_life t.started now
    then some StopReason.max_lifetime
    else if passed idle t.last_active now
    then some StopReason.idle_timeout
    else none

-- why the sweep stops a record, if it does
unfoldable pub verdict : Config → Tracked → ℕ → WorkloadRecord → Option StopReason
unfolding limit_hit effective_limits
verdict cfg tracked now r =
    if is_running r.status.state
    then elim (get tracked r.status.workload_id) [
      | none ↦ none
      | some t ↦ limit_hit (effective_limits cfg r.spec) t now
    ]
    else none

module _ (B : Substrate) (cfg : Config) (now : ℕ) where
  -- one more id in front of those stopped, unless an exception has left the sweep
  abbrev pub stopped_cons :
      String
      → Runtime B × Tracked × Result (List String)
      → Runtime B × Tracked × Result (List String)
  stopped_cons id (k, tracked, ok ids) = (k, tracked, ok (id ∷ ids))
  stopped_cons id (k, tracked, raised e) = (k, tracked, raised e)

  -- the loop of the sweep
  unfoldable pub sweep_from :
      Runtime B → Tracked → List WorkloadRecord → Runtime B × Tracked × Result (List String)
  unfolding verdict
  sweep_from k tracked [] = (k, tracked, ok [])
  sweep_from k tracked (r ∷ rs) = elim (verdict cfg tracked now r) [
    | none ↦ sweep_from k tracked rs
    | some reason ↦
        let id = r.status.workload_id in
        let (k', answer) = stop B cfg k id reason in
        elim answer [
          | ok status ↦ stopped_cons id (sweep_from k' (forget tracked id) rs)
          | raised e ↦ (k', tracked, raised e)
        ]
  ]

  -- Enforcer.sweep
  unfoldable pub sweep : Runtime B → Tracked → Runtime B × Tracked × Result (List String)
  unfolding sweep_from
  sweep k tracked = sweep_from k tracked (list_records k.store)
