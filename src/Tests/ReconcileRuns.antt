-- ===== src/Tests/ReconcileRuns.antt =====
-- The theorems on lifecycle/reconcile.py, for one meeting whose bot is quiet.
use meeting_bot_service.Prelude.{true, false, some, [], ◌∷◌, ◌++◌, ◌≡◌, refl, get, arith}
use meeting_bot_service.Lifecycle.Types.{TransitionSource}
use meeting_bot_service.Lifecycle.Machine.{MeetingRecord}
use meeting_bot_service.Lifecycle.Sink.{apply_change}
use meeting_bot_service.Lifecycle.Reconcile.{
  Body, asked_state, posted, Ports, deleted, workload_unknown, not_found, found_state, workload_of,
}
use meeting_bot_service.Lifecycle.Reconcile.Sweeps.{Row, Sweep, reconcile_stale_nonterminal_sweep}
use meeting_bot_service.Lifecycle.Reconcile.Evidence.{count_posts}
use meeting_bot_service.Lifecycle.Reconcile.Windows.{sweeps, zombie_converges}
use meeting_bot_service.Lifecycle.Reconcile.Terminals.{event_of, HasEnded}

-- a runtime that tracks the workload, which has stopped
abbrev honest : Ports
honest = record {
  has_runtime = true;
  delete_workload = λ calls id. deleted;
  get_workload = λ calls id. found_state "stopped";
  post_lifecycle = λ calls body. true;
}

-- a runtime that was recreated
abbrev amnesiac : Ports
amnesiac = record {
  has_runtime = true;
  delete_workload = λ calls id. workload_unknown;
  get_workload = λ calls id. not_found;
  post_lifecycle = λ calls body. true;
}

abbrev quiet_row : Row
quiet_row = record {
  meeting_id = "1";
  status = "active";
  session_uid = "s1";
  container = some "w1";
  stop_requested = false;
}

abbrev at_start : Sweep
at_start = record { calls = []; tracker = []; seen = []; reconciled = 0 }

zombie_converges_example :
    let s = sweeps amnesiac 600 quiet_row "w1" [] [] (0 ∷ 300 ∷ 600 ∷ []) in
    let e =
      reconcile_stale_nonterminal_sweep amnesiac 600 601 s.calls s.tracker
        (some (quiet_row ∷ [])) in
    (count_posts s.calls ≡ count_posts [])
    × (e.reconciled ≡ 1)
    × ((body : Body) × (e.calls
          ≡ (s.calls ++ asked_state "w1" not_found ∷ []) ++ posted body true ∷ [])
        × (body.connection_id ≡ "s1")
        × (body.status ≡ "failed")
        × (body.completion_reason ≡ "left_alone")
        × ((rec : MeetingRecord) × (get
                (apply_change true [] (event_of body) TransitionSource.runtime_destroy "t").0
                "s1"
              ≡ some rec)
            × HasEnded rec))
unfolding workload_of get
zombie_converges_example =
    zombie_converges amnesiac 600 quiet_row "w1" refl refl (λ calls. refl) (λ calls body. refl) 0
      601 (300 ∷ 600 ∷ []) [] [] [] TransitionSource.runtime_destroy "t" refl
      (omega arith, (omega arith, tt)) (omega arith)
