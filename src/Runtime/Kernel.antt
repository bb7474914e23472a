-- ===== src/Runtime/Kernel.antt =====
-- kernel.py: `Runtime`, the lifecycle of a workload over a substrate.
use mathlib.Core.Option
use meeting_bot_service.Prelude.{
  ℕ, Bool, false, String, Option, none, some, List, [], ◌∷◌, ◌++◌, Dict, get, put, ℤ, leb,
  if◌then◌else◌,
}
use meeting_bot_service.Runtime.Models.{
  RuntimeState, StopReason, WorkloadSpec, WorkloadStatus, RuntimeEvent, is_running, is_live,
  exit_reason, Runnable, ProfileRegistry, resolve, Substrate,
}
use meeting_bot_service.Runtime.Store.{
  WorkloadRecord, WorkloadStore, set_record, get_record, list_records, count_for_owner,
}

-- what an operation raises
pub data KernelError : Type 0 where
  key_error : String → KernelError
  unknown_profile : String → KernelError
  quota_exceeded : String → ℕ → KernelError
  cleanup_failed : KernelError

pub data Result {ℓ} (A : Type ℓ) : Type ℓ where
  ok : A → Result A
  raised : KernelError → Result A

-- the settings of a Runtime; `grace_ms` is grace_sec in milliseconds
pub record Config : Type 0 where
  pub profiles : ProfileRegistry
  pub grace_ms : ℕ
  pub owner_resolver : WorkloadSpec → String
  pub owner_quota : Option ℕ

-- a Runtime: the world that its backend acts on, the store, the live handles, and the events that
-- were handed to `on_event`, oldest first
pub record Runtime (B : Substrate) : Type 0 where
  pub world : B.World
  pub store : WorkloadStore
  pub handles : Dict B.Handle
  pub events : List RuntimeEvent

module _ (B : Substrate) (cfg : Config) where
  -- _emit
  unfoldable pub emit :
      Runtime B → String → RuntimeState → Option (Dict ℕ) → Option ℤ → Option StopReason → Runtime B
  emit k id state ports code reason = record k {
    events =
        k.events
        ++ (record {
          workload_id = id;
          state = state;
          at = B.stamp k.world;
          ports = ports;
          exit_code = code;
          stop_reason = reason;
        })
          ∷ [];
  }

  -- _persist
  unfoldable pub persist : Runtime B → WorkloadSpec → WorkloadStatus → Runtime B
  persist k spec status = record k {
    store =
        set_record k.store
          (record { spec = spec; status = status; owner = cfg.owner_resolver spec });
  }

  -- `_handle_for` past the in-process map
  unfoldable pub rederive : Runtime B → String → Option B.Handle → Runtime B × Option B.Handle
  rederive k id none = (k, none)
  rederive k id (some h) = (record k { handles = put k.handles id h }, some h)

  -- _handle_for
  unfoldable pub handle_for : Runtime B → String → Runtime B × Option B.Handle
  unfolding rederive
  handle_for k id = elim (get k.handles id) [
    | none ↦ rederive k id (B.find k.world id)
    | some h ↦ (k, some h)
  ]

  abbrev pub exit_of : Runtime B → Option B.Handle → Option ℤ
  exit_of k none = none
  exit_of k (some h) = B.exit_code k.world h

  -- the status of a workload that was seen to have exited
  unfoldable pub exited : WorkloadStatus → ℤ → String → WorkloadStatus
  exited status code at = record status {
    state = RuntimeState.stopped;
    exit_code = some code;
    stopped_at = some at;
    stop_reason = some (exit_reason code);
  }

  -- the reflection in `get` of a workload that exited on its own
  unfoldable pub reflect_exit :
      Runtime B → String → WorkloadRecord → Option ℤ → Runtime B × WorkloadStatus
  unfolding exited emit persist
  reflect_exit k id r none = (k, r.status)
  reflect_exit k id r (some code) =
      let status = exited r.status code (B.stamp k.world) in
      (
        emit (persist k r.spec status) id RuntimeState.stopped none (some code)
            (some (exit_reason code)),
        status,
      )

  unfoldable pub reflect : Runtime B → String → WorkloadRecord → Runtime B × WorkloadStatus
  unfolding reflect_exit
  reflect k id r =
      if is_running r.status.state
      then (let (k', h) = handle_for k id in reflect_exit k' id r (exit_of k' h))
      else (k, r.status)

  -- Runtime.get
  unfoldable pub get_workload : Runtime B → String → Runtime B × Result WorkloadStatus
  get_workload k id = elim (get_record k.store id) [
    | none ↦ (k, raised (key_error id))
    | some r ↦ (let (k', status) = reflect k id r in (k', ok status))
  ]

  -- one more status in front of the list, unless an exception has left it
  unfoldable pub list_cons :
      Runtime B
      → Result WorkloadStatus
      → Runtime B × Result (List WorkloadStatus)
      → Runtime B × Result (List WorkloadStatus)
  list_cons k (raised e) rest = (k, raised e)
  list_cons k (ok status) (k', raised e) = (k', raised e)
  list_cons k (ok status) (k', ok statuses) = (k', ok (status ∷ statuses))

  -- Runtime.list, over the records as they stood at its start
  unfoldable pub list_from :
      Runtime B → List WorkloadRecord → Runtime B × Result (List WorkloadStatus)
  unfolding list_cons
  list_from k [] = (k, ok [])
  list_from k (r ∷ rs) =
      let (k', got) = get_workload k r.spec.workload_id in list_cons k' got (list_from k' rs)

  unfoldable pub list_workloads : Runtime B → Runtime B × Result (List WorkloadStatus)
  unfolding list_from
  list_workloads k = list_from k (list_records k.store)

  -- the quota test of `create`
  unfoldable pub over_quota : WorkloadStore → WorkloadSpec → Option ℕ → Bool
  over_quota store spec none = false
  over_quota store spec (some cap) = leb cap (count_for_owner store (cfg.owner_resolver spec))

  abbrev pub fresh_status : WorkloadSpec → WorkloadStatus
  fresh_status spec = record {
    workload_id = spec.workload_id;
    profile = spec.profile;
    state = RuntimeState.starting;
    backend = B.kind;
    ports = none;
    started_at = none;
    stopped_at = none;
    exit_code = none;
    stop_reason = none;
    node = none;
  }

  -- what follows `backend.start`
  unfoldable pub settle :
      Runtime B → WorkloadSpec → WorkloadStatus → Option B.Handle → Runtime B × WorkloadStatus
  unfolding emit persist
  settle k spec status none =
      let status' = record status {
        state = RuntimeState.stopped;
        stop_reason = some StopReason.start_failed;
        stopped_at = some (B.stamp k.world);
      } in
      (
        emit (persist k spec status') spec.workload_id RuntimeState.stopped none none
            (some StopReason.start_failed),
        status',
      )
  settle k spec status (some h) =
      let held = record k { handles = put k.handles spec.workload_id h } in
      let status' = record status {
        state = RuntimeState.running;
        started_at = some (B.stamp k.world);
        ports = some [];
      } in
      (
        emit (persist held spec status') spec.workload_id RuntimeState.running (some []) none none,
        status',
      )

  -- the spawn of `create`, past the profile and the quota
  unfoldable pub launch : Runtime B → WorkloadSpec → Runnable → Runtime B × WorkloadStatus
  unfolding settle emit persist
  launch k spec runnable =
      let status = fresh_status spec in
      let begun =
        emit (persist k spec status) spec.workload_id RuntimeState.starting none none none in
      let (world', h) = B.start begun.world spec.workload_id runnable spec.env in
      settle (record begun { world = world' }) spec status h

  unfoldable pub spawn : Runtime B → WorkloadSpec → Runtime B × Result WorkloadStatus
  unfolding launch over_quota
  spawn k spec = elim (resolve cfg.profiles spec.profile) [
    | none ↦ (k, raised (unknown_profile spec.profile))
    | some runnable ↦
        if over_quota k.store spec cfg.owner_quota
        then (
          k,
          raised (quota_exceeded (cfg.owner_resolver spec) (Option.get_or cfg.owner_quota 0)),
        )
        else (let (k', status) = launch k spec runnable in (k', ok status))
  ]

  -- `existing is not None and existing.state in (starting, running)`
  abbrev pub is_touch : Result WorkloadStatus → Bool
  is_touch (ok status) = is_live status.state
  is_touch (raised e) = false

  -- Runtime.create
  unfoldable pub create : Runtime B → WorkloadSpec → Runtime B × Result WorkloadStatus
  unfolding spawn get_workload
  create k spec =
      let (k', existing) = get_workload k spec.workload_id in
      if is_touch existing then (k', existing) else spawn k' spec
