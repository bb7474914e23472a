-- ===== src/Runtime/Teardown.antt =====
-- kernel.py: `stop`, `destroy` and `adopt`.
use meeting_bot_service.Prelude.{
  ℕ, zero, suc, ◌+◌, Bool, true, ◌&&◌, ◌||◌, not, String, Option, none, some, List, [], ◌∷◌, get,
  put, ℤ, is_some, ltb, is_empty, if◌then◌else◌,
}
use meeting_bot_service.Runtime.Models.{
  RuntimeState, StopReason, WorkloadSpec, WorkloadStatus, is_terminal, exit_reason, ContainerInfo,
  Substrate,
}
use meeting_bot_service.Runtime.Store.{WorkloadRecord, get_record}
use meeting_bot_service.Runtime.Kernel.{
  key_error, cleanup_failed, Result, ok, raised, Config, Runtime, emit, persist, handle_for,
  fresh_status,
}

module _ (B : Substrate) (cfg : Config) where
  -- `while exit_code(h) is None and time.time() < deadline: time.sleep(0.02)`, on fuel
  unfoldable pub await_exit : ℕ → B.World → B.Handle → ℕ → B.World
  await_exit zero w h deadline = w
  await_exit (suc fuel) w h deadline =
      let later = await_exit fuel (B.sleep w) h deadline in
      if not (is_some (B.exit_code w h)) && ltb (B.now w) deadline then later else w

  -- `if exit_code(h) is None: kill(h)`
  unfoldable pub force_kill : B.World → B.Handle → B.World
  force_kill w h = if is_some (B.exit_code w h) then w else B.kill w h

  -- The graceful stop, the grace window and the kill. One unit of fuel for each millisecond of the
  -- window, and one more, is enough where a sleep moves the clock.
  unfoldable pub shutdown : Runtime B → Option B.Handle → Runtime B × Option ℤ
  unfolding await_exit force_kill
  shutdown k none = (k, none)
  shutdown k (some h) =
      let asked = B.terminate k.world h in
      let waited = await_exit (suc cfg.grace_ms) asked h (B.now asked + cfg.grace_ms) in
      let gone = force_kill waited h in (record k { world = gone }, B.exit_code gone h)

  -- the final record and event of `stop`
  unfoldable pub conclude :
      Runtime B
      → String
      → WorkloadSpec
      → WorkloadStatus
      → Option ℤ
      → StopReason
      → Runtime B × WorkloadStatus
  unfolding emit persist
  conclude k id spec status code reason =
      let status' = record status {
        state = RuntimeState.stopped;
        exit_code = code;
        stopped_at = some (B.stamp k.world);
        stop_reason = some reason;
      } in
      (
        emit B cfg (persist B cfg k spec status') id RuntimeState.stopped none code (some reason),
        status',
      )

  -- `stop` on a workload that has not ended
  unfoldable pub wind_down :
      Runtime B → String → WorkloadRecord → StopReason → Runtime B × WorkloadStatus
  unfolding shutdown conclude emit persist
  wind_down k id r reason =
      let status = record r.status { state = RuntimeState.stopping } in
      let told =
        emit B cfg (persist B cfg k r.spec status) id RuntimeState.stopping none none none in
      let (found, h) = handle_for B cfg told id in
      let (down, code) = shutdown found h in conclude down id r.spec status code reason

  -- Runtime.stop
  unfoldable pub stop : Runtime B → String → StopReason → Runtime B × Result WorkloadStatus
  unfolding wind_down
  stop k id reason = elim (get_record k.store id) [
    | none ↦ (k, raised (key_error id))
    | some r ↦
        if is_terminal r.status.state
        then (k, ok r.status)
        else (let (k', status) = wind_down k id r reason in (k', ok status))
  ]

  -- `backend.cleanup(h)` where there is a handle; `false` is its exception
  unfoldable pub reclaim : Runtime B → Option B.Handle → Runtime B × Bool
  reclaim k none = (k, true)
  reclaim k (some h) = let (w, done) = B.cleanup k.world h in (record k { world = w }, done)

  -- Runtime.destroy
  unfoldable pub destroy : Runtime B → String → Runtime B × Result WorkloadStatus
  unfolding reclaim emit persist
  destroy k id = elim (get_record k.store id) [
    | none ↦ (k, raised (key_error id))
    | some r ↦
        let (found, h) = handle_for B cfg k id in
        let (cleaned, done) = reclaim found h in
        let status = record r.status { state = RuntimeState.destroyed } in
        if done
        then (
          emit B cfg (persist B cfg cleaned r.spec status) id RuntimeState.destroyed none none none,
          ok status,
        )
        else (cleaned, raised cleanup_failed)
  ]

  -- the spec of a re-registered container
  abbrev pub adopted_spec : String → WorkloadSpec
  adopted_spec id = record {
    workload_id = id;
    profile = "adopted";
    env = [];
    callback_url = none;
    resources = none;
    idle_timeout_sec = none;
    max_lifetime_sec = none;
    backend = none;
  }

  -- its status: running, or stopped with what its exit code tells
  unfoldable pub adopted_status : Runtime B → String → ContainerInfo → WorkloadStatus
  adopted_status k id info =
      let alive = record (fresh_status B cfg (adopted_spec id)) { state = RuntimeState.running } in
      if info.running then alive else record alive {
        state = RuntimeState.stopped;
        exit_code = info.exit_code;
        stopped_at = some (B.stamp k.world);
        stop_reason =
            some (elim info.exit_code [ none ↦ StopReason.failed | some c ↦ exit_reason c ]);
      }

  -- `self._handles.setdefault(…)`
  unfoldable pub attach : Runtime B → String → String → Runtime B
  attach k id name =
      if is_some (get k.handles id)
      then k
      else record k { handles = put k.handles id (B.handle_of id name) }

  -- one round of the loop of `adopt`, for a container with an id and a name
  unfoldable pub adopt_one : Runtime B → String → String → ContainerInfo → Runtime B × ℕ
  unfolding attach adopted_status persist
  adopt_one k id name info =
      let held = attach k id name in
      if is_some (get_record held.store id)
      then (held, 0)
      else (persist B cfg held (adopted_spec id) (adopted_status held id info), 1)

  -- `if not wid or not name: continue`
  unfoldable pub adopt_named :
      Runtime B → Option String → Option String → ContainerInfo → Runtime B × ℕ
  unfolding adopt_one
  adopt_named k (some id) (some name) info =
      if is_empty id || is_empty name then (k, 0) else adopt_one k id name info
  adopt_named k _ _ info = (k, 0)

  unfoldable pub adopt_from : Runtime B → List ContainerInfo → Runtime B × ℕ
  unfolding adopt_named
  adopt_from k [] = (k, 0)
  adopt_from k (info ∷ infos) =
      let (k', one) = adopt_named k info.workload_id info.name info in
      let (k'', more) = adopt_from k' infos in (k'', one + more)

  -- Runtime.adopt; a backend with no list, or one that raises, adopts nothing
  unfoldable pub adopt : Runtime B → Runtime B × ℕ
  unfolding adopt_from
  adopt k = elim (B.list_workload_containers k.world) [
    | none ↦ (k, 0)
    | some infos ↦ adopt_from k infos
  ]
