-- ===== src/Lifecycle/Reconcile/Synthesis.antt =====
-- lifecycle/reconcile.py: the terminal that a dead workload leads to.
use Prim.Native.String.{◌++◌ as append}
use meeting_bot_service.Prelude.{
  Bool, false, ◌||◌, ◌&&◌, not, String, Option, none, some, List, str_eq, is_empty, if◌then◌else◌,
}
use meeting_bot_service.Lifecycle.Reconcile.{Body, Call, Ports, post}

-- what `find_by_container` returns; `none` for a missing key
pub record Found : Type 0 where
  pub session_uid : Option String
  pub status : Option String

-- `state in TERMINAL_WORKLOAD_STATES`
abbrev pub is_terminal_workload : String → Bool
is_terminal_workload s =
    str_eq s "destroyed"
    || str_eq s "failed"
    || str_eq s "exited"
    || str_eq s "crashed"
    || str_eq s "stopped"
    || str_eq s "error"

-- `status in _PRE_ACTIVE_STATUSES`
abbrev pub is_pre_active : String → Bool
is_pre_active s = str_eq s "requested" || str_eq s "joining" || str_eq s "awaiting_admission"

-- `status in _WAS_ACTIVE_STATUSES`
abbrev pub was_active : String → Bool
was_active s = str_eq s "stopping" || str_eq s "active" || str_eq s "needs_help"

-- the body for a meeting in this status, if it has not ended
unfoldable pub synthetic_body : String → String → String → Option Body
synthetic_body session status state =
    if is_pre_active status
    then some (record {
      connection_id = session;
      status = "failed";
      failure_stage = some status;
      completion_reason = "join_failure";
      reason = some (append "workload " (append state " before the bot reported (never started)"));
      stop_requested = false;
    })
    else if was_active status
    then some (record {
      connection_id = session;
      status = "completed";
      failure_stage = none;
      completion_reason = if str_eq status "stopping" then "stopped" else "left_alone";
      reason = some (append "stopped (workload " (append state ", confirmed by runtime)"));
      stop_requested = str_eq status "stopping";
    })
    else none

abbrev nonempty : Option String → Option String
nonempty none = none
nonempty (some s) = if is_empty s then none else some s

-- the body that a lookup leads to; `none` is a lookup that raises or finds nothing
unfoldable pub synthesis : Option Found → String → Option Body
unfolding synthetic_body
synthesis none state = none
synthesis (some info) state = elim (nonempty info.session_uid) [
  | none ↦ none
  | some session ↦ elim info.status [
    | none ↦ none
    | some status ↦ synthetic_body session status state
  ]
]

-- synthesize_terminal_for_dead_workload on a repository that answers `lookup`
unfoldable pub synthesize_terminal_for_dead_workload :
    Ports → (String → Option Found) → List Call → Option String → Option String → List Call × Bool
unfolding synthesis post
synthesize_terminal_for_dead_workload ports lookup calls (some id) (some state) =
    if not (is_empty id) && is_terminal_workload state
    then elim (synthesis (lookup id) state) [
      | none ↦ (calls, false)
      | some body ↦ post ports calls body
    ]
    else (calls, false)
synthesize_terminal_for_dead_workload ports lookup calls _ _ = (calls, false)
