-- ===== src/Runtime/Enforcement/Verdicts.antt =====
-- What a sweep of the Enforcer does to each workload.
use mathlib.Core.Path.{subst}
use meeting_bot_service.Prelude.{
  ℕ, ◌⊎◌, false, String, Option, none, some, List, [], ◌∷◌, ◌≡◌, refl, ◌∙◌, sym, inl, inr, get,
  get-put, get-remove, str_eq, eq_iff, arith, All, All-map, All-map2, Option-cases,
}
use meeting_bot_service.Runtime.Models.{
  RuntimeState, StopReason, WorkloadStatus, is_terminal, Substrate,
}
use meeting_bot_service.Runtime.Store.{WorkloadRecord, get_record, set_record, list_records}
use meeting_bot_service.Runtime.Kernel.{
  Config, Runtime, Result, ok, raised, emit, persist, handle_for,
}
use meeting_bot_service.Runtime.Teardown.{stop, wind_down, conclude, shutdown}
use meeting_bot_service.Runtime.Invariant.{IsSound}
use meeting_bot_service.Runtime.Sound.{handle_for-SameRecords, shutdown-SameRecords}
use meeting_bot_service.Runtime.Ending.{stop-IsSound}
use meeting_bot_service.Runtime.Outcomes.{stop_live}
use meeting_bot_service.Runtime.Enforcement.Limits.{IsDue, Picked, verdict_due, undue}
use meeting_bot_service.Runtime.Enforcement.{
  Tracked, forget, verdict, sweep_from, sweep, stopped_cons,
}

-- the ids of the records that the verdict stops
abbrev overdue : Config → Tracked → ℕ → List WorkloadRecord → List String
overdue cfg tracked now [] = []
overdue cfg tracked now (r ∷ rs) = elim (verdict cfg tracked now r) [
  | none ↦ overdue cfg tracked now rs
  | some reason ↦ r.status.workload_id ∷ overdue cfg tracked now rs
]

-- the record has another id
abbrev pub IsOther : String → WorkloadRecord → Type 0
IsOther id r = str_eq r.status.workload_id id ≡ false

-- the records have different ids
abbrev pub IsDistinct : List WorkloadRecord → Type 0
IsDistinct [] = Unit
IsDistinct (r ∷ rs) = All (IsOther r.status.workload_id) rs × IsDistinct rs

verdict_running :
    (cfg : Config) (tracked : Tracked) (now : ℕ) (r : WorkloadRecord) (reason : StopReason)
    → verdict cfg tracked now r ≡ some reason
    → is_terminal r.status.state ≡ false
unfolding verdict
verdict_running cfg tracked now r reason h = ground arith

verdict_same :
    (cfg : Config) (a b : Tracked) (now : ℕ) (r : WorkloadRecord)
    → get a r.status.workload_id ≡ get b r.status.workload_id
    → verdict cfg a now r ≡ verdict cfg b now r
unfolding verdict
verdict_same cfg a b now r same = rw same

module _ (B : Substrate) (cfg : Config) (now : ℕ) where
  -- the record stands in the store under the id that its status names
  abbrev pub IsFiled : Runtime B → WorkloadRecord → Type 0
  IsFiled k r = get k.store r.status.workload_id ≡ some r

  -- two tables of tracked workloads agree on the workload of a record
  abbrev Agrees : Tracked → Tracked → WorkloadRecord → Type 0
  Agrees a b r = get a r.status.workload_id ≡ get b r.status.workload_id

  forget_other :
      (tracked : Tracked) (id j : String)
      → str_eq j id ≡ false
      → get (forget tracked id) j ≡ get tracked j
  unfolding forget
  forget_other tracked id j other =
      ground (arith, other, eq_iff id j, eq_iff j id, get-remove tracked id j)

  answered_cons :
      (id : String) (out : Runtime B × Tracked × Result (List String)) (ids : List String)
      → out.2 ≡ ok ids
      → (stopped_cons B cfg now id out).2 ≡ ok (id ∷ ids)
  answered_cons id (k, tracked, ok ids') ids h = ground arith
  answered_cons id (k, tracked, raised e) ids h = cc

  kept_cons :
      (id : String) (out : Runtime B × Tracked × Result (List String))
      → (stopped_cons B cfg now id out).0 ≡ out.0
  kept_cons id (k, tracked, ok ids) = refl
  kept_cons id (k, tracked, raised e) = refl

  -- what the verdict on a record makes of it
  abbrev Concluded : Option StopReason → Runtime B → WorkloadRecord → Type 0
  Concluded none k r = IsFiled k r
  Concluded (some reason) k r =
      (status : WorkloadStatus) × (status.state ≡ RuntimeState.stopped)
      × (status.stop_reason ≡ some reason)
      × (get k.store r.status.workload_id
          ≡ some (record { spec = r.spec; status = status; owner = cfg.owner_resolver r.spec }))

  stop_elsewhere :
      (k : Runtime B) (id j : String) (r : WorkloadRecord) (reason : StopReason)
      → IsSound B cfg k
      → get k.store id ≡ some r
      → str_eq id j ≡ false
      → get (stop B cfg k id reason).0.store j ≡ get k.store j
  unfolding stop get_record wind_down conclude emit persist set_record
  stop_elsewhere k id j r reason sound found other =
      let stopping : WorkloadStatus = record r.status { state = RuntimeState.stopping } in
      let told =
        emit B cfg (persist B cfg k r.spec stopping) id RuntimeState.stopping none none none in
      let (found', handle) = handle_for B cfg told id in
      let (down, code) = shutdown B cfg found' handle in
      ground (
        arith,
        (sound.filed id r found).0,
        (handle_for-SameRecords B cfg told id).store,
        (shutdown-SameRecords B cfg found' handle).store,
        get-put k.store r.spec.workload_id j
            (record { spec = r.spec; status = stopping; owner = cfg.owner_resolver r.spec }),
        get-put down.store r.spec.workload_id j (record {
          spec = r.spec;
          status = record r.status {
            state = RuntimeState.stopped;
            exit_code = code;
            stopped_at = some (B.stamp down.world);
            stop_reason = some reason;
          };
          owner = cfg.owner_resolver r.spec;
        }),
      )

  record Ran (k : Runtime B) (tracked : Tracked) (rs : List WorkloadRecord)
      (out : Runtime B × Tracked × Result (List String)) : Type 0 where
    pub answered : out.2 ≡ ok (overdue cfg tracked now rs)
    pub settled : All (λ (r : WorkloadRecord). Concluded (verdict cfg tracked now r) out.0 r) rs
    pub elsewhere : (j : String) → All (IsOther j) rs → get out.0.store j ≡ get k.store j
    pub sound : IsSound B cfg out.0

  sweep_from-Ran :
      (rs : List WorkloadRecord) (k : Runtime B) (tracked t0 : Tracked)
      → IsSound B cfg k
      → All (IsFiled k) rs
      → IsDistinct rs
      → All (Agrees tracked t0) rs
      → Ran k t0 rs (sweep_from B cfg now k tracked rs)
  unfolding sweep_from
  sweep_from-Ran [] k tracked t0 sound filed distinct agree = record {
    answered = refl;
    settled = tt;
    elsewhere = λ j h. refl;
    sound = sound;
  }
  sweep_from-Ran (r ∷ rs) k tracked t0 sound filed distinct agree =
      let id = r.status.workload_id in
      let same = verdict_same cfg tracked t0 now r agree.0 in
      elim (Option-cases (verdict cfg t0 now r)) [
        | inl kept ↦
            let later = sweep_from-Ran rs k tracked t0 sound filed.1 distinct.1 agree.1 in
            rw (same, kept, sweep_from)
              (record {
                answered = rw (kept, overdue) later.answered;
                settled = (rw kept (later.elsewhere id distinct.0 ∙ filed.0), later.settled);
                elsewhere = λ j others. later.elsewhere j others.1;
                sound = later.sound;
              })
        | inr (reason, over) ↦
            let live = verdict_running cfg t0 now r reason over in
            let done = stop_live B cfg k id r reason sound filed.0 live in
            let k' = (stop B cfg k id reason).0 in
            let filed' : All (IsFiled k') rs =
              All-map2 (IsOther id) (IsFiled k) (IsFiled k') rs
                (λ r' other here.
                  stop_elsewhere k id r'.status.workload_id r reason sound filed.0 (
                    ground (
                      arith,
                      eq_iff id r'.status.workload_id,
                      eq_iff r'.status.workload_id id,
                      other,
                    ))
                  ∙ here)
                distinct.0 filed.1 in
            let later =
              sweep_from-Ran rs k' (forget tracked id) t0 (stop-IsSound B cfg k id reason sound)
                filed' distinct.1
                (All-map2 (IsOther id) (Agrees tracked t0) (Agrees (forget tracked id) t0) rs
                  (λ r' other here. forget_other tracked id r'.status.workload_id other ∙ here)
                  distinct.0 agree.1) in
            let out = sweep_from B cfg now k' (forget tracked id) rs in
            rw (same, over, done.answered, sweep_from)
              (record {
                answered = rw (over, overdue) (answered_cons id _ _ later.answered);
                settled = (
                  rw (kept_cons id out, over, Concluded)
                      (
                        done.status,
                        done.ended,
                        done.attributed,
                        later.elsewhere id distinct.0 ∙ done.stored,
                      ),
                  subst
                      (λ (end : Runtime B).
                        All (λ (r' : WorkloadRecord). Concluded (verdict cfg t0 now r') end r') rs)
                      (sym (kept_cons id out)) later.settled,
                );
                elsewhere = λ j others. rw (kept_cons id out) (
                    later.elsewhere j others.1
                    ∙ stop_elsewhere k id j r reason sound filed.0 others.0);
                sound = rw (kept_cons id out) later.sound;
              })
      ]

  overdue-Picked :
      (tracked : Tracked) (rs : List WorkloadRecord)
      → Picked cfg tracked now rs (overdue cfg tracked now rs)
  overdue-Picked tracked [] = refl
  overdue-Picked tracked (r ∷ rs) = elim (Option-cases (verdict cfg tracked now r)) [
    | inl kept ↦ rw (kept, overdue) (inr (undue cfg tracked now r kept, overdue-Picked tracked rs))
    | inr (reason, over) ↦
        rw (over, overdue)
          (inl (
            reason,
            verdict_due cfg tracked now r reason over,
            (overdue cfg tracked now rs, refl, overdue-Picked tracked rs),
          ))
  ]

  -- a record that is due is stopped in the store with the limit as its reason, and one that is not
  -- stands there as it was
  abbrev pub Settled : Tracked → Runtime B → WorkloadRecord → Type 0
  Settled tracked k r =
      ((reason : StopReason) × IsDue cfg tracked now r reason
        × ((status : WorkloadStatus) × (status.state ≡ RuntimeState.stopped)
            × (status.stop_reason ≡ some reason)
            × (get k.store r.status.workload_id
                ≡ some (record {
                  spec = r.spec;
                  status = status;
                  owner = cfg.owner_resolver r.spec;
                }))))
      ⊎ (((reason : StopReason) → IsDue cfg tracked now r reason → ⊥) × IsFiled k r)

  Concluded-Settled :
      (tracked : Tracked) (k : Runtime B) (r : WorkloadRecord)
      → Concluded (verdict cfg tracked now r) k r
      → Settled tracked k r
  Concluded-Settled tracked k r h = elim (Option-cases (verdict cfg tracked now r)) [
    | inl kept ↦ inr (undue cfg tracked now r kept, subst (λ v. Concluded v k r) kept h)
    | inr (reason, over) ↦
        inl (reason, verdict_due cfg tracked now r reason over, subst (λ v. Concluded v k r) over h)
  ]

  pub record Swept (k : Runtime B) (tracked : Tracked) (rs : List WorkloadRecord)
      (out : Runtime B × Tracked × Result (List String)) : Type 0 where
    pub ids : List String
    pub answered : out.2 ≡ ok ids
    pub picked : Picked cfg tracked now rs ids
    pub settled : All (Settled tracked out.0) rs
    pub elsewhere : (j : String) → All (IsOther j) rs → get out.0.store j ≡ get k.store j
    pub sound : IsSound B cfg out.0

  -- Where the records of a sound store stand under the different ids that their statuses name, a
  -- sweep answers the ids of exactly the running workloads that it tracks and that are past a limit,
  -- the workload's own or else its profile's: past its lifetime since it started, or else idle for
  -- its idle limit since its last activity. Each of those is stopped with the limit as its reason,
  -- and every other record is as it was.
  pub sweep-Swept :
      (k : Runtime B) (tracked : Tracked)
      → IsSound B cfg k
      → All (IsFiled k) (list_records k.store)
      → IsDistinct (list_records k.store)
      → Swept k tracked (list_records k.store) (sweep B cfg now k tracked)
  unfolding sweep
  sweep-Swept k tracked sound filed distinct =
      let rs = list_records k.store in
      let out = sweep_from B cfg now k tracked rs in
      let ran =
        sweep_from-Ran (list_records k.store) k tracked tracked sound filed distinct (
          All-map (IsFiled k) (Agrees tracked tracked) (list_records k.store) (λ r h. refl)
            filed) in
      record {
        ids = overdue cfg tracked now rs;
        answered = ran.answered;
        picked = overdue-Picked tracked rs;
        settled =
            All-map (λ (r : WorkloadRecord). Concluded (verdict cfg tracked now r) out.0 r)
              (Settled tracked out.0) rs (Concluded-Settled tracked out.0) ran.settled;
        elsewhere = ran.elsewhere;
        sound = ran.sound;
      }
