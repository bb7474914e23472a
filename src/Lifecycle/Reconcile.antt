-- ===== src/Lifecycle/Reconcile.antt =====
-- lifecycle/reconcile.py: the teardown verdict, the liveness probe, the window of untracked
-- workloads, and the escalation. Times are whole seconds, and a meeting's id is a text.
pub mod Sweeps
pub mod Synthesis
pub mod Answers
pub mod Evidence
pub mod Windows
pub mod Terminals
use Prim.Native.String.{◌++◌ as append}
use mathlib.Core.Option
use meeting_bot_service.Prelude.{
  ℕ, ◌-◌, Bool, true, false, ◌||◌, not, String, Option, none, some, List, [], ◌∷◌, ◌++◌, Dict, get,
  put, remove, str_eq, is_empty, ltb, show_nat, if◌then◌else◌,
}

-- the body of a lifecycle callback; `stop_requested` is `data.stop_requested`
pub record Body : Type 0 where
  pub connection_id : String
  pub status : String
  pub failure_stage : Option String
  pub completion_reason : String
  pub reason : Option String
  pub stop_requested : Bool

-- what `delete_workload` does: it returns, raises WorkloadUnknown, or raises another exception
pub data Deletion : Type 0 where
  deleted workload_unknown delete_error : Deletion

-- what `get_workload` does: it raises, returns None, or returns the workload's state
pub data Lookup : Type 0 where
  lookup_error not_found : Lookup
  found_state : String → Lookup

-- one call that a sweep makes, with its answer; `false` is an exception of the poster
pub data Call : Type 0 where
  asked_delete : String → Deletion → Call
  asked_state : String → Lookup → Call
  posted : Body → Bool → Call

-- the runtime client and the poster; an answer may depend on the calls made before it
pub record Ports : Type 0 where
  pub has_runtime : Bool
  pub delete_workload : List Call → String → Deletion
  pub get_workload : List Call → String → Lookup
  pub post_lifecycle : List Call → Body → Bool

pub data Verdict : Type 0 where
  confirmed untracked failed : Verdict

pub data Liveness : Type 0 where
  gone alive untracked unknown : Liveness

-- `runtime is None or not bot_container_id`
unfoldable pub workload_of : Bool → Option String → Option String
workload_of false id = none
workload_of true none = none
workload_of true (some id) = if is_empty id then none else some id

abbrev pub verdict_of : Deletion → Verdict
verdict_of deleted = confirmed
verdict_of workload_unknown = Verdict.untracked
verdict_of delete_error = failed

-- `info.get("state") in _ALIVE_WORKLOAD_STATES`
abbrev pub is_alive_state : String → Bool
is_alive_state s = str_eq s "starting" || str_eq s "running" || str_eq s "stopping"

abbrev pub liveness_of : Lookup → Liveness
liveness_of lookup_error = unknown
liveness_of not_found = Liveness.untracked
liveness_of (found_state s) = if is_alive_state s then alive else gone

module _ (ports : Ports) where
  -- _teardown_verdict: the calls made so far, and the verdict
  unfoldable pub teardown_verdict : List Call → Option String → List Call × Verdict
  unfolding workload_of
  teardown_verdict calls container = elim (workload_of ports.has_runtime container) [
    | none ↦ (calls, confirmed)
    | some id ↦
        let answer = ports.delete_workload calls id in
        (calls ++ asked_delete id answer ∷ [], verdict_of answer)
  ]

  -- _probe_bot_workload
  unfoldable pub probe_bot_workload : List Call → Option String → List Call × Liveness
  unfolding workload_of
  probe_bot_workload calls container = elim (workload_of ports.has_runtime container) [
    | none ↦ (calls, unknown)
    | some id ↦
        let answer = ports.get_workload calls id in
        (calls ++ asked_state id answer ∷ [], liveness_of answer)
  ]

  -- `await post_lifecycle(body)`, and whether it returned
  unfoldable pub post : List Call → Body → List Call × Bool
  post calls body = let ok = ports.post_lifecycle calls body in (calls ++ posted body ok ∷ [], ok)

-- the times at which the untracked windows of the meetings began
abbrev pub Tracker : Type 0
Tracker = Dict ℕ

-- `tracker.setdefault(meeting_id, now)`
unfoldable pub first_seen : Tracker → String → ℕ → Tracker × ℕ
first_seen tracker id now = elim (get tracker id) [
  | none ↦ (put tracker id now, now)
  | some t ↦ (tracker, t)
]

-- _untracked_window_elapsed, without the set of ids
unfoldable pub untracked_window_elapsed : Tracker → String → ℕ → ℕ → Tracker × Bool
unfolding first_seen
untracked_window_elapsed tracker id grace now =
    let (tracker', first) = first_seen tracker id now in (tracker', ltb grace (now - first))

abbrev pub text_of : Option String → String
text_of none = "None"
text_of (some s) = s

-- the body of an escalation
unfoldable pub escalation : String → String → Option String → ℕ → Body
escalation status session container grace = record {
  connection_id = session;
  status = "failed";
  failure_stage = some (
      if str_eq status "requested" || str_eq status "joining" || str_eq status "awaiting_admission"
      then status
      else "active");
  completion_reason = "left_alone";
  reason = some (
      append "workload " (
        append (text_of container) (
          append " untracked for >"
            (append (show_nat grace) "s; presumed lost — runtime restart or external removal"))));
  stop_requested = false;
}
