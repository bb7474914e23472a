-- ===== src/Runtime/Ending.antt =====
-- `stop` and `destroy` keep `IsSound`, over every substrate.
use meeting_bot_service.Prelude.{
  false, String, none, some, ◌≡◌, refl, ap, ◌∙◌, get, put, eq_iff, get-put, Bool-cases, arith, inl,
  inr, Option-cases,
}
use meeting_bot_service.Runtime.Models.{RuntimeState, StopReason, is_terminal, Substrate}
use meeting_bot_service.Runtime.Store.{WorkloadRecord, WorkloadStore, set_record, get_record}
use meeting_bot_service.Runtime.Kernel.{Config, Runtime, emit, persist, handle_for}
use meeting_bot_service.Runtime.Teardown.{shutdown, conclude, wind_down, stop, reclaim, destroy}
use meeting_bot_service.Runtime.Invariant.{IsSound, filing}
use meeting_bot_service.Runtime.Sound.{
  carry, renew, handle_for-SameRecords, shutdown-SameRecords, reclaim-SameRecords,
}

module _ (B : Substrate) (cfg : Config) where
  -- a record written over a stored one is found under the same id
  pub refound :
      (k : Runtime B) (id : String) (r r' : WorkloadRecord)
      → IsSound B cfg k
      → get k.store id ≡ some r
      → get (put k.store r.spec.workload_id r') id ≡ some r'
  refound k id r r' h found = ground (
    arith,
    h.filed id r found,
    get-put k.store r.spec.workload_id id r',
    eq_iff r.spec.workload_id id,
  )

  wind_down-IsSound :
      (k : Runtime B) (id : String) (r : WorkloadRecord) (reason : StopReason)
      → IsSound B cfg k
      → get k.store id ≡ some r
      → is_terminal r.status.state ≡ false
      → IsSound B cfg (wind_down B cfg k id r reason).0
  unfolding wind_down conclude emit persist set_record
  wind_down-IsSound k id r reason h found live =
      let status = record r.status { state = RuntimeState.stopping } in
      let told =
        emit B cfg (persist B cfg k r.spec status) id RuntimeState.stopping none none none in
      let sound =
        renew B cfg k id r status RuntimeState.stopping none none none h found (λ ended. cc) refl in
      let (found', handle) = handle_for B cfg told id in
      let (down, code) = shutdown B cfg found' handle in
      let same = handle_for-SameRecords B cfg told id in
      let same' = shutdown-SameRecords B cfg found' handle in
      renew B cfg down id (filing B cfg r.spec status)
        (record status {
          state = RuntimeState.stopped;
          exit_code = code;
          stopped_at = some (B.stamp down.world);
          stop_reason = some reason;
        })
        RuntimeState.stopped none code (some reason)
        (carry B cfg told down (same'.store ∙ same.store) (same'.events ∙ same.events) sound)
        (ap (λ (s : WorkloadStore). get s id) (same'.store ∙ same.store)
          ∙ refound k id r (filing B cfg r.spec status) h found)
        (λ _. refl) refl

  pub stop-IsSound :
      (k : Runtime B) (id : String) (reason : StopReason)
      → IsSound B cfg k
      → IsSound B cfg (stop B cfg k id reason).0
  unfolding stop get_record
  stop-IsSound k id reason h = elim (Option-cases (get k.store id)) [
    | inl lost ↦ rw (lost, stop) h
    | inr (r, found) ↦ elim (Bool-cases (is_terminal r.status.state)) [
      | inl ended ↦ rw (found, ended, stop) h
      | inr live ↦ rw (found, live, stop) (wind_down-IsSound k id r reason h found live)
    ]
  ]

  pub destroy-IsSound :
      (k : Runtime B) (id : String) → IsSound B cfg k → IsSound B cfg (destroy B cfg k id).0
  unfolding destroy get_record
  destroy-IsSound k id h = elim (Option-cases (get k.store id)) [
    | inl lost ↦ rw (lost, destroy) h
    | inr (r, found) ↦
        let (found', handle) = handle_for B cfg k id in
        let (cleaned, done) = reclaim B cfg found' handle in
        let same = handle_for-SameRecords B cfg k id in
        let same' = reclaim-SameRecords B cfg found' handle in
        let sound =
          carry B cfg k cleaned (same'.store ∙ same.store) (same'.events ∙ same.events) h in
        elim (Bool-cases done) [
          | inl confirmed ↦
              rw (found, confirmed, destroy)
                (renew B cfg cleaned id r (record r.status { state = RuntimeState.destroyed })
                  RuntimeState.destroyed none none none sound
                  (ap (λ (s : WorkloadStore). get s id) (same'.store ∙ same.store) ∙ found)
                  (λ _. refl) refl)
          | inr unconfirmed ↦ rw (found, unconfirmed, destroy) sound
        ]
  ]
