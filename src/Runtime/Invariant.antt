-- ===== src/Runtime/Invariant.antt =====
-- What holds of a Runtime between two operations: records under their own ids with their resolved
-- owners, no owner over the quota, and each record in the state of the last event of its id.
use meeting_bot_service.Prelude.{
  ℕ, ◌+◌, ◌≤◌, true, false, String, Option, none, some, List, [], ◌∷◌, ◌++◌, ◌≡◌, Dict, get, ℤ,
  str_eq, eq_iff, get-put, count_if-put, bit, bit_at, arith, if◌then◌else◌,
}
use meeting_bot_service.Runtime.Models.{
  RuntimeState, StopReason, WorkloadSpec, WorkloadStatus, RuntimeEvent, is_terminal, Substrate,
}
use meeting_bot_service.Runtime.Store.{
  WorkloadRecord, WorkloadStore, occupies, set_record, count_for_owner,
}
use meeting_bot_service.Runtime.Kernel.{Config, Runtime, emit, persist, over_quota}

-- the state that the last event of a workload tells
unfoldable pub last_event : List RuntimeEvent → String → Option RuntimeState
last_event [] id = none
last_event (e ∷ es) id = elim (last_event es id) [
  | none ↦ if str_eq e.workload_id id then some e.state else none
  | some s ↦ some s
]

pub last_event-append :
    (es : List RuntimeEvent) (e : RuntimeEvent) (id : String)
    → last_event (es ++ e ∷ []) id
      ≡ (if str_eq e.workload_id id then some e.state else last_event es id)
unfolding last_event
last_event-append [] e id = ground arith
last_event-append (d ∷ es) e id = ground (arith, last_event-append es e id)

module _ (B : Substrate) (cfg : Config) where
  pub record IsSound (k : Runtime B) : Type 0 where
    pub filed :
        (id : String) (r : WorkloadRecord)
        → get k.store id ≡ some r
        → (r.spec.workload_id ≡ id) × (r.owner ≡ cfg.owner_resolver r.spec)
    pub within :
        (owner : String) (cap : ℕ)
        → cfg.owner_quota ≡ some cap
        → count_for_owner k.store owner ≤ cap
    pub told :
        (id : String) (r : WorkloadRecord)
        → get k.store id ≡ some r
        → last_event k.events id ≡ some r.status.state

  -- the record that `_persist` writes
  abbrev pub filing : WorkloadSpec → WorkloadStatus → WorkloadRecord
  filing spec status = record { spec = spec; status = status; owner = cfg.owner_resolver spec }

  -- the quota has room for writing this record over what stands under its id
  abbrev pub HasRoom : WorkloadStore → WorkloadSpec → WorkloadStatus → Type 0
  HasRoom store spec status =
      (owner : String) (cap : ℕ)
      → cfg.owner_quota ≡ some cap
      → count_for_owner store owner + bit (occupies owner (filing spec status))
        ≤ cap + bit_at (occupies owner) (get store spec.workload_id)

  pub note-IsSound :
      (k : Runtime B) (spec : WorkloadSpec) (status : WorkloadStatus) (id : String)
      (state : RuntimeState) (ports : Option (Dict ℕ)) (code : Option ℤ) (why : Option StopReason)
      → IsSound k
      → spec.workload_id ≡ id
      → status.state ≡ state
      → HasRoom k.store spec status
      → IsSound (emit B cfg (persist B cfg k spec status) id state ports code why)
  unfolding emit persist set_record count_for_owner
  note-IsSound k spec status id state ports code why h named same room = record {
    filed = λ j r found. ground (
      arith,
      eq_iff spec.workload_id j,
      get-put k.store spec.workload_id j (filing spec status),
      h.filed j r,
    );
    within = λ owner cap q. omega (
      arith,
      room owner cap q,
      count_if-put (occupies owner) k.store spec.workload_id (filing spec status),
    );
    told = λ j r found. ground (
      arith,
      eq_iff id j,
      get-put k.store spec.workload_id j (filing spec status),
      h.told j r,
      last_event-append k.events
          (record {
            workload_id = id;
            state = state;
            at = B.stamp k.world;
            ports = ports;
            exit_code = code;
            stop_reason = why;
          })
          j,
    );
  }

  -- writing a new status over a record leaves room, unless it revives an ended workload
  pub rewrite-HasRoom :
      (k : Runtime B) (r : WorkloadRecord) (status : WorkloadStatus)
      → IsSound k
      → get k.store r.spec.workload_id ≡ some r
      → (is_terminal r.status.state ≡ true → is_terminal status.state ≡ true)
      → HasRoom k.store r.spec status
  rewrite-HasRoom k r status h found ends owner cap q =
      ground (arith, h.within owner cap q, h.filed r.spec.workload_id r found)

  -- the quota test leaves room for a new workload
  pub fresh-HasRoom :
      (k : Runtime B) (spec : WorkloadSpec) (status : WorkloadStatus)
      → IsSound k
      → over_quota B cfg k.store spec cfg.owner_quota ≡ false
      → HasRoom k.store spec status
  unfolding over_quota
  fresh-HasRoom k spec status h free owner cap q =
      ground (arith, h.within owner cap q, eq_iff (cfg.owner_resolver spec) owner)
