-- ===== src/Runtime/Outcomes.antt =====
-- What `create`, `stop` and `destroy` do to one stored workload.
use meeting_bot_service.Prelude.{
  true, false, String, Option, none, some, List, [], ◌∷◌, ◌++◌, ◌≡◌, refl, ap, ◌∙◌, ◌⊎◌, inl, inr,
  get, get-put, eq_iff, Bool-cases, Option-cases, arith,
}
use meeting_bot_service.Runtime.Models.{
  RuntimeState, StopReason, WorkloadSpec, WorkloadStatus, RuntimeEvent, is_terminal, Substrate,
}
use meeting_bot_service.Runtime.Store.{WorkloadRecord, get_record, set_record}
use meeting_bot_service.Runtime.Kernel.{
  Config, Runtime, cleanup_failed, Result, ok, raised, emit, persist, handle_for, reflect,
  reflect_exit, create,
}
use meeting_bot_service.Runtime.Teardown.{shutdown, conclude, wind_down, stop, reclaim, destroy}
use meeting_bot_service.Runtime.Invariant.{IsSound}
use meeting_bot_service.Runtime.Sound.{
  handle_for-SameRecords, shutdown-SameRecords, reclaim-SameRecords,
}

module _ (B : Substrate) (cfg : Config) (k : Runtime B) (id : String) (r : WorkloadRecord) where
  -- `create` for a workload that runs, by its record and its live handle, is a touch: it answers the
  -- status, and changes nothing at all, whatever the profile and the quota say.
  create_running :
      (spec : WorkloadSpec) (h : B.Handle)
      → spec.workload_id ≡ id
      → get k.store id ≡ some r
      → r.status.state ≡ RuntimeState.running
      → get k.handles id ≡ some h
      → B.exit_code k.world h ≡ none
      → create B cfg k spec ≡ (k, ok r.status)
  unfolding create get_record reflect handle_for reflect_exit
  create_running spec h named found runs held alive = ground arith

  -- what a stop leaves behind: the status it answers is the stored one
  pub record Stopped (reason : StopReason) (out : Runtime B × Result WorkloadStatus) : Type 0 where
    pub status : WorkloadStatus
    pub answered : out.1 ≡ ok status
    pub ended : status.state ≡ RuntimeState.stopped
    pub attributed : status.stop_reason ≡ some reason
    pub stored :
        get out.0.store id
        ≡ some (record { spec = r.spec; status = status; owner = cfg.owner_resolver r.spec })
    pub first : RuntimeEvent
    pub second : RuntimeEvent
    pub events : out.0.events ≡ (k.events ++ first ∷ []) ++ second ∷ []
    pub first_id : first.workload_id ≡ id
    pub first_state : first.state ≡ RuntimeState.stopping
    pub second_id : second.workload_id ≡ id
    pub second_state : second.state ≡ RuntimeState.stopped
    pub second_reason : second.stop_reason ≡ some reason
    pub second_code : second.exit_code ≡ status.exit_code

  wound_down :
      (reason : StopReason)
      → IsSound B cfg k
      → get k.store id ≡ some r
      → Stopped reason ((wind_down B cfg k id r reason).0, ok (wind_down B cfg k id r reason).1)
  unfolding wind_down conclude emit persist set_record
  wound_down reason sound found =
      let told =
        emit B cfg (persist B cfg k r.spec (record r.status { state = RuntimeState.stopping })) id
          RuntimeState.stopping none none none in
      let (found', handle) = handle_for B cfg told id in
      let (down, code) = shutdown B cfg found' handle in
      let same = handle_for-SameRecords B cfg told id in
      let same' = shutdown-SameRecords B cfg found' handle in
      let named = (sound.filed id r found).0 in
      let after : WorkloadStatus = record r.status {
        state = RuntimeState.stopped;
        exit_code = code;
        stopped_at = some (B.stamp down.world);
        stop_reason = some reason;
      } in
      let last : RuntimeEvent = record {
        workload_id = id;
        state = RuntimeState.stopped;
        at = B.stamp down.world;
        ports = none;
        exit_code = code;
        stop_reason = some reason;
      } in
      record {
        status = after;
        answered = refl;
        ended = refl;
        attributed = refl;
        stored = ground (
          arith,
          named,
          eq_iff r.spec.workload_id id,
          get-put down.store r.spec.workload_id id
              (record { spec = r.spec; status = after; owner = cfg.owner_resolver r.spec }),
        );
        first = record {
          workload_id = id;
          state = RuntimeState.stopping;
          at = B.stamp k.world;
          ports = none;
          exit_code = none;
          stop_reason = none;
        };
        second = last;
        events = ap (λ (es : List RuntimeEvent). es ++ last ∷ []) (same'.events ∙ same.events);
        first_id = refl;
        first_state = refl;
        second_id = refl;
        second_state = refl;
        second_reason = refl;
        second_code = refl;
      }

  -- A stop of a workload that has not ended tells `stopping` and then `stopped`, stores what it
  -- answers under the workload's id, and carries the reason it was given.
  pub stop_live :
      (reason : StopReason)
      → IsSound B cfg k
      → get k.store id ≡ some r
      → is_terminal r.status.state ≡ false
      → Stopped reason (stop B cfg k id reason)
  unfolding stop get_record
  stop_live reason sound found live = rw (found, live, stop) (wound_down reason sound found)

  -- A stop of an ended workload answers its status and changes nothing.
  pub stop_ended :
      (reason : StopReason)
      → get k.store id ≡ some r
      → is_terminal r.status.state ≡ true
      → stop B cfg k id reason ≡ (k, ok r.status)
  unfolding stop get_record
  stop_ended reason found ended = ground arith

  world-handle_for : (handle_for B cfg k id).0.world ≡ k.world
  unfolding handle_for
  world-handle_for = ground arith

  reclaim_confirmed :
      (k' : Runtime B) (o : Option B.Handle) (h : B.Handle)
      → (reclaim B cfg k' o).1 ≡ true
      → o ≡ some h
      → (B.cleanup k'.world h).1 ≡ true
  unfolding reclaim
  reclaim_confirmed k' none h done e = cc
  reclaim_confirmed k' (some h') h done e = ground arith

  reclaim_refused :
      (k' : Runtime B) (o : Option B.Handle)
      → (reclaim B cfg k' o).1 ≡ false
      → (h : B.Handle) × (o ≡ some h) × ((B.cleanup k'.world h).1 ≡ false)
  unfolding reclaim
  reclaim_refused k' none refused = absurd (cc)
  reclaim_refused k' (some h) refused = (h, refl, ground arith)

  -- `destroyed` is never a lie: where `destroy` answers, the substrate confirmed the cleanup of the
  -- handle there was, and the record and the one event that is new say `destroyed`; where it raises,
  -- there was a handle whose cleanup the substrate did not confirm, and the records and the events
  -- are as they were.
  pub destroy_honest :
      IsSound B cfg k
      → get k.store id ≡ some r
      → ((status : WorkloadStatus) × ((destroy B cfg k id).1 ≡ ok status)
          × (status.state ≡ RuntimeState.destroyed)
          × (((handle_for B cfg k id).1 ≡ none)
              ⊎ ((h : B.Handle) × ((handle_for B cfg k id).1 ≡ some h)
                  × ((B.cleanup k.world h).1 ≡ true)))
          × (get (destroy B cfg k id).0.store id
              ≡ some (record { spec = r.spec; status = status; owner = cfg.owner_resolver r.spec }))
          × ((e : RuntimeEvent) × ((destroy B cfg k id).0.events ≡ k.events ++ e ∷ [])
              × (e.workload_id ≡ id)
              × (e.state ≡ RuntimeState.destroyed)))
        ⊎ (((destroy B cfg k id).1 ≡ raised cleanup_failed)
            × ((h : B.Handle) × ((handle_for B cfg k id).1 ≡ some h)
                × ((B.cleanup k.world h).1 ≡ false))
            × ((destroy B cfg k id).0.store ≡ k.store)
            × ((destroy B cfg k id).0.events ≡ k.events))
  unfolding destroy get_record emit persist set_record
  destroy_honest sound found =
      let (found', handle) = handle_for B cfg k id in
      let (cleaned, done) = reclaim B cfg found' handle in
      let same = handle_for-SameRecords B cfg k id in
      let same' = reclaim-SameRecords B cfg found' handle in
      let named = (sound.filed id r found).0 in
      let last : RuntimeEvent = record {
        workload_id = id;
        state = RuntimeState.destroyed;
        at = B.stamp cleaned.world;
        ports = none;
        exit_code = none;
        stop_reason = none;
      } in
      elim (Bool-cases done) [
        | inl confirmed ↦
            rw (found, confirmed, destroy)
              (inl (
                record r.status { state = RuntimeState.destroyed },
                refl,
                refl,
                elim (Option-cases handle) [
                  | inl lost ↦ inl lost
                  | inr (h, held) ↦ inr (
                    h,
                    held,
                    rw world-handle_for at (reclaim_confirmed found' handle h confirmed held),
                  )
                ],
                ground (
                  arith,
                  named,
                  eq_iff r.spec.workload_id id,
                  get-put cleaned.store r.spec.workload_id id (record {
                    spec = r.spec;
                    status = record r.status { state = RuntimeState.destroyed };
                    owner = cfg.owner_resolver r.spec;
                  }),
                ),
                (
                  last,
                  ap (λ (es : List RuntimeEvent). es ++ last ∷ []) (same'.events ∙ same.events),
                  refl,
                  refl,
                ),
              ))
        | inr unconfirmed ↦
            let (h, held, failed) = reclaim_refused found' handle unconfirmed in
            let refused : (h : B.Handle) × (handle ≡ some h) × ((B.cleanup k.world h).1 ≡ false) =
              (h, held, rw world-handle_for at failed) in
            rw (found, unconfirmed, destroy)
              (inr (refl, refused, same'.store ∙ same.store, same'.events ∙ same.events))
      ]
