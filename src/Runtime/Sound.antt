-- ===== src/Runtime/Sound.antt =====
-- The reads of the Runtime and `create` keep `IsSound`, over every substrate.
use meeting_bot_service.Prelude.{
  ℕ, true, false, String, Option, none, some, List, [], ◌∷◌, ◌≡◌, refl, Dict, get, put, ℤ,
  Bool-cases, arith, inl, inr, Option-cases, get-put_self,
}
use meeting_bot_service.Runtime.Models.{
  RuntimeState, StopReason, WorkloadSpec, WorkloadStatus, is_terminal, is_running, Substrate,
  Runnable, resolve, exit_reason,
}
use meeting_bot_service.Runtime.Store.{WorkloadRecord, set_record, get_record}
use meeting_bot_service.Runtime.Kernel.{
  Config, Runtime, Result, ok, raised, emit, persist, over_quota, handle_for, exit_of, exited,
  reflect_exit, reflect, get_workload, list_cons, list_from, settle, launch, spawn, create,
  fresh_status, is_touch,
}
use meeting_bot_service.Runtime.Teardown.{shutdown, reclaim}
use meeting_bot_service.Runtime.Invariant.{
  IsSound, note-IsSound, rewrite-HasRoom, fresh-HasRoom, filing,
}

module _ (B : Substrate) (cfg : Config) where
  -- the invariant reads the store and the events alone
  pub carry :
      (k k' : Runtime B)
      → k'.store ≡ k.store
      → k'.events ≡ k.events
      → IsSound B cfg k
      → IsSound B cfg k'
  carry k k' s e h = record {
    filed = rw s h.filed;
    within = rw s h.within;
    told = rw (s, e) h.told;
  }

  pub record SameRecords (k k' : Runtime B) : Type 0 where
    pub store : k'.store ≡ k.store
    pub events : k'.events ≡ k.events

  pub handle_for-SameRecords :
      (k : Runtime B) (id : String) → SameRecords k (handle_for B cfg k id).0
  unfolding handle_for
  handle_for-SameRecords k id = ground arith

  pub shutdown-SameRecords :
      (k : Runtime B) (h : Option B.Handle) → SameRecords k (shutdown B cfg k h).0
  unfolding shutdown
  shutdown-SameRecords k none = record { store = refl; events = refl }
  shutdown-SameRecords k (some h) = record { store = refl; events = refl }

  pub reclaim-SameRecords :
      (k : Runtime B) (h : Option B.Handle) → SameRecords k (reclaim B cfg k h).0
  unfolding reclaim
  reclaim-SameRecords k none = record { store = refl; events = refl }
  reclaim-SameRecords k (some h) = record { store = refl; events = refl }

  -- writing a new status of a stored workload and telling it
  pub renew :
      (k : Runtime B) (id : String) (r : WorkloadRecord) (status : WorkloadStatus)
      (state : RuntimeState) (ports : Option (Dict ℕ)) (code : Option ℤ) (why : Option StopReason)
      → IsSound B cfg k
      → get k.store id ≡ some r
      → (is_terminal r.status.state ≡ true → is_terminal status.state ≡ true)
      → status.state ≡ state
      → IsSound B cfg (emit B cfg (persist B cfg k r.spec status) id state ports code why)
  renew k id r status state ports code why h found ends same =
      let named = (h.filed id r found).0 in
      note-IsSound B cfg k r.spec status id state ports code why h named same
        (rewrite-HasRoom B cfg k r status h (cc) ends)

  reflect_exit-IsSound :
      (k : Runtime B) (id : String) (r : WorkloadRecord) (code : Option ℤ)
      → IsSound B cfg k
      → get k.store id ≡ some r
      → IsSound B cfg (reflect_exit B cfg k id r code).0
  unfolding reflect_exit
  reflect_exit-IsSound k id r none h found = h
  reflect_exit-IsSound k id r (some code) h found =
      renew k id r (exited B cfg r.status code (B.stamp k.world)) RuntimeState.stopped none
        (some code) (some (exit_reason code)) h found (λ _. refl) refl

  reflect-IsSound :
      (k : Runtime B) (id : String) (r : WorkloadRecord)
      → IsSound B cfg k
      → get k.store id ≡ some r
      → IsSound B cfg (reflect B cfg k id r).0
  unfolding reflect
  reflect-IsSound k id r h found =
      let same = handle_for-SameRecords k id in
      let (k', handle) = handle_for B cfg k id in
      elim (Bool-cases (is_running r.status.state)) [
        | inl runs ↦
            rw (runs, reflect)
              (reflect_exit-IsSound k' id r (exit_of B cfg k' handle)
                (carry k k' same.store same.events h) (rw same.store found))
        | inr rests ↦ rw (rests, reflect) h
      ]

  pub get_workload-IsSound :
      (k : Runtime B) (id : String) → IsSound B cfg k → IsSound B cfg (get_workload B cfg k id).0
  unfolding get_workload get_record
  get_workload-IsSound k id h = elim (Option-cases (get k.store id)) [
    | inl lost ↦ rw (lost, get_workload) h
    | inr (r, found) ↦ rw (found, get_workload) (reflect-IsSound k id r h found)
  ]

  list_cons-IsSound :
      (k : Runtime B) (got : Result WorkloadStatus)
      (rest : Runtime B × Result (List WorkloadStatus))
      → IsSound B cfg k
      → IsSound B cfg rest.0
      → IsSound B cfg (list_cons B cfg k got rest).0
  unfolding list_cons
  list_cons-IsSound k (raised e) rest h h' = h
  list_cons-IsSound k (ok status) (k', raised e) h h' = h'
  list_cons-IsSound k (ok status) (k', ok statuses) h h' = h'

  pub list_from-IsSound :
      (k : Runtime B) (rs : List WorkloadRecord)
      → IsSound B cfg k
      → IsSound B cfg (list_from B cfg k rs).0
  unfolding list_from
  list_from-IsSound k [] h = h
  list_from-IsSound k (r ∷ rs) h =
      let (k', got) = get_workload B cfg k r.spec.workload_id in
      let h' = get_workload-IsSound k r.spec.workload_id h in
      list_cons-IsSound k' got (list_from B cfg k' rs) h' (list_from-IsSound k' rs h')

  settle-IsSound :
      (k : Runtime B) (r : WorkloadRecord) (handle : Option B.Handle)
      → IsSound B cfg k
      → get k.store r.spec.workload_id ≡ some r
      → is_terminal r.status.state ≡ false
      → IsSound B cfg (settle B cfg k r.spec r.status handle).0
  unfolding settle
  settle-IsSound k r none h found live =
      renew k r.spec.workload_id r
        (record r.status {
          state = RuntimeState.stopped;
          stop_reason = some StopReason.start_failed;
          stopped_at = some (B.stamp k.world);
        })
        RuntimeState.stopped none none (some StopReason.start_failed) h found (λ _. refl) refl
  settle-IsSound k r (some handle) h found live =
      let held : Runtime B = record k { handles = put k.handles r.spec.workload_id handle } in
      renew held r.spec.workload_id r
        (record r.status {
          state = RuntimeState.running;
          started_at = some (B.stamp k.world);
          ports = some [];
        })
        RuntimeState.running (some []) none none (carry k held refl refl h) found (λ ended. cc) refl

  launch-IsSound :
      (k : Runtime B) (spec : WorkloadSpec) (runnable : Runnable)
      → IsSound B cfg k
      → over_quota B cfg k.store spec cfg.owner_quota ≡ false
      → IsSound B cfg (launch B cfg k spec runnable).0
  unfolding launch emit persist set_record
  launch-IsSound k spec runnable h free =
      let status = fresh_status B cfg spec in
      let begun =
        emit B cfg (persist B cfg k spec status) spec.workload_id RuntimeState.starting none none
          none in
      let sound =
        note-IsSound B cfg k spec status spec.workload_id RuntimeState.starting none none none h
          refl refl (fresh-HasRoom B cfg k spec status h free) in
      let (world', handle) = B.start begun.world spec.workload_id runnable spec.env in
      let started : Runtime B = record begun { world = world' } in
      settle-IsSound started (filing B cfg spec status) handle (carry begun started refl refl sound)
        (get-put_self k.store spec.workload_id (filing B cfg spec status)) refl

  spawn-IsSound :
      (k : Runtime B) (spec : WorkloadSpec) → IsSound B cfg k → IsSound B cfg (spawn B cfg k spec).0
  unfolding spawn
  spawn-IsSound k spec h = elim (Option-cases (resolve cfg.profiles spec.profile)) [
    | inl unknown ↦ rw (unknown, spawn) h
    | inr (runnable, known) ↦ elim (Bool-cases (over_quota B cfg k.store spec cfg.owner_quota)) [
      | inl full ↦ rw (known, full, spawn) h
      | inr free ↦ rw (known, free, spawn) (launch-IsSound k spec runnable h free)
    ]
  ]

  pub create-IsSound :
      (k : Runtime B) (spec : WorkloadSpec)
      → IsSound B cfg k
      → IsSound B cfg (create B cfg k spec).0
  unfolding create
  create-IsSound k spec h =
      let (k', existing) = get_workload B cfg k spec.workload_id in
      let h' = get_workload-IsSound k spec.workload_id h in
      elim (Bool-cases (is_touch B cfg existing)) [
        | inl touch ↦ rw (touch, create) h'
        | inr new ↦ rw (new, create) (spawn-IsSound k' spec h')
      ]
