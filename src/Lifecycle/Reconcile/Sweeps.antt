-- ===== src/Lifecycle/Reconcile/Sweeps.antt =====
-- lifecycle/reconcile.py: the two sweeps.
use Prim.Native.String.{◌++◌ as append}
use meeting_bot_service.Prelude.{
  ℕ, suc, Bool, false, ◌||◌, ◌&&◌, not, String, Option, none, some, List, [], ◌∷◌, ◌++◌, remove,
  str_eq, is_empty, if◌then◌else◌,
}
use meeting_bot_service.Lifecycle.Reconcile.{
  Body, Call, Ports, Verdict, confirmed, Liveness, gone, Tracker, teardown_verdict,
  probe_bot_workload, post, untracked_window_elapsed, escalation, alive, unknown, failed,
}

-- a row of `list_stale_nonterminal`
pub record Row : Type 0 where
  pub meeting_id : String
  pub status : String
  pub session_uid : String
  pub container : Option String
  pub stop_requested : Bool

-- what a sweep carries along: the calls made, the tracker, the ids that were untracked in this
-- sweep, and the number reconciled
pub record Sweep : Type 0 where
  pub calls : List Call
  pub tracker : Tracker
  pub seen : List String
  pub reconciled : ℕ

-- `status in _LIVE_NONTERMINAL and bot_container_id`
abbrev pub has_container : Option String → Bool
has_container none = false
has_container (some id) = not (is_empty id)

abbrev pub is_live_nonterminal : String → Bool
is_live_nonterminal s = str_eq s "active" || str_eq s "needs_help"

-- `status in _PRE_ACTIVE_NONTERMINAL`
abbrev pub is_pre_active_nonterminal : String → Bool
is_pre_active_nonterminal s =
    str_eq s "requested"
    || str_eq s "joining"
    || str_eq s "awaiting_admission"
    || str_eq s "needs_help"

-- the body that ends a row whose teardown is confirmed
unfoldable pub terminal_body : Row → Body
terminal_body row =
    if is_pre_active_nonterminal row.status
    then record {
      connection_id = row.session_uid;
      status = "failed";
      failure_stage = none;
      completion_reason = "left_alone";
      reason = some (
          append "bot gone while "
            (append row.status "; reconciled to failed (never reached active)"));
      stop_requested = false;
    }
    else record {
      connection_id = row.session_uid;
      status = "completed";
      failure_stage = none;
      completion_reason = if row.stop_requested then "stopped" else "left_alone";
      reason = none;
      stop_requested = row.stop_requested;
    }

module _ (ports : Ports) (grace now : ℕ) where
  -- a post that counts when it returns
  unfoldable pub post_counted : Sweep → Body → Sweep
  unfolding post
  post_counted s body =
      let (calls, ok) = post ports s.calls body in
      record s { calls = calls; reconciled = if ok then suc s.reconciled else s.reconciled }

  -- _escalate_untracked_zombie
  unfoldable pub escalate : Sweep → Row → Sweep
  unfolding post
  escalate s row =
      let (calls, ok) =
        post ports s.calls (escalation row.status row.session_uid row.container grace) in
      if ok
      then record s {
        calls = calls;
        tracker = remove s.tracker row.meeting_id;
        reconciled = suc s.reconciled;
      }
      else record s { calls = calls }

  -- one untracked observation, and the escalation once its window has elapsed
  unfoldable pub observe_untracked : Sweep → Row → Sweep
  unfolding escalate untracked_window_elapsed
  observe_untracked s row =
      let (tracker, elapsed) = untracked_window_elapsed s.tracker row.meeting_id grace now in
      let noted = record s { tracker = tracker; seen = s.seen ++ row.meeting_id ∷ [] } in
      if elapsed then escalate noted row else noted

  -- the teardown of a row, and what it leads to
  unfoldable pub conclude_row : Sweep → Row → Sweep
  unfolding post_counted observe_untracked teardown_verdict terminal_body
  conclude_row s row =
      let (calls, verdict) = teardown_verdict ports s.calls row.container in
      let asked = record s { calls = calls } in
      elim verdict [
        | confirmed ↦ post_counted asked (terminal_body row)
        | Verdict.untracked ↦ observe_untracked asked row
        | failed ↦ asked
      ]

  -- the body of the loop
  unfoldable pub sweep_row : Sweep → Row → Sweep
  unfolding conclude_row observe_untracked probe_bot_workload
  sweep_row s row =
      if is_live_nonterminal row.status && has_container row.container
      then (let (calls, liveness) = probe_bot_workload ports s.calls row.container in
          let asked = record s { calls = calls } in
          elim liveness [
            | gone ↦ conclude_row asked row
            | Liveness.untracked ↦ observe_untracked asked row
            | alive ↦ asked
            | unknown ↦ asked
          ])
      else conclude_row s row

  unfoldable pub sweep_rows : Sweep → List Row → Sweep
  unfolding sweep_row
  sweep_rows s [] = s
  sweep_rows s (row ∷ rows) = sweep_rows (sweep_row s row) rows

abbrev pub among : String → List String → Bool
among id [] = false
among id (j ∷ js) = str_eq j id || among id js

-- drop the entries of the meetings that this sweep has not seen untracked
unfoldable pub keep_seen : Tracker → List String → Tracker
keep_seen [] seen = []
keep_seen ((id, t) ∷ tracker) seen =
    if among id seen then (id, t) ∷ keep_seen tracker seen else keep_seen tracker seen

-- reconcile_stale_nonterminal_sweep on the rows that the repository lists; `none` is a repository
-- without the list or one that raises
unfoldable pub reconcile_stale_nonterminal_sweep :
    Ports → ℕ → ℕ → List Call → Tracker → Option (List Row) → Sweep
unfolding sweep_rows keep_seen
reconcile_stale_nonterminal_sweep ports grace now calls tracker none = record {
  calls = calls;
  tracker = tracker;
  seen = [];
  reconciled = 0;
}
reconcile_stale_nonterminal_sweep ports grace now calls tracker (some rows) =
    let s =
      sweep_rows ports grace now
        (record { calls = calls; tracker = tracker; seen = []; reconciled = 0 }) rows in
    record s { tracker = keep_seen s.tracker s.seen }

-- the body of a stop that is reconciled
abbrev pub stop_body : String → Body
stop_body session = record {
  connection_id = session;
  status = "completed";
  failure_stage = none;
  completion_reason = "stopped";
  reason = none;
  stop_requested = false;
}

-- one row of reconcile_stale_stopping_sweep
unfoldable pub stopping_row : Ports → List Call × ℕ → String × Option String → List Call × ℕ
unfolding post teardown_verdict
stopping_row ports (calls, reconciled) (session, container) =
    let (calls', verdict) = teardown_verdict ports calls container in
    elim verdict [
      | confirmed ↦
          let (calls'', ok) = post ports calls' (stop_body session) in
          (calls'', if ok then suc reconciled else reconciled)
      | Verdict.untracked ↦ (calls', reconciled)
      | failed ↦ (calls', reconciled)
    ]

-- reconcile_stale_stopping_sweep
unfoldable pub reconcile_stale_stopping_sweep :
    Ports → List Call × ℕ → List (String × Option String) → List Call × ℕ
unfolding stopping_row
reconcile_stale_stopping_sweep ports s [] = s
reconcile_stale_stopping_sweep ports s (row ∷ rows) =
    reconcile_stale_stopping_sweep ports (stopping_row ports s row) rows
