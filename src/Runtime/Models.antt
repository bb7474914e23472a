-- ===== src/Runtime/Models.antt =====
-- models.py, profiles.py and backend.py: the shapes of runtime.v1, the profile registry, and the
-- port through which the kernel runs a workload.
use mathlib.Core.Option
use meeting_bot_service.Prelude.{
  ℕ, Bool, true, false, String, Option, List, Dict, get, ℤ, is_zero, if◌then◌else◌,
}

pub data RuntimeState : Type 0 where
  starting running stopping stopped destroyed : RuntimeState

pub data StopReason : Type 0 where
  completed stopped idle_timeout failed oom start_failed max_lifetime : StopReason

pub data BackendKind : Type 0 where
  docker k8s process : BackendKind

-- create()'s input; `resources` is opaque text, which the kernel never reads
pub record WorkloadSpec : Type 0 where
  pub workload_id : String
  pub profile : String
  pub env : Dict String
  pub callback_url : Option String
  pub resources : Option String
  pub idle_timeout_sec : Option ℕ
  pub max_lifetime_sec : Option ℕ
  pub backend : Option BackendKind

pub record WorkloadStatus : Type 0 where
  pub workload_id : String
  pub profile : String
  pub state : RuntimeState
  pub backend : BackendKind
  pub ports : Option (Dict ℕ)
  pub started_at : Option String
  pub stopped_at : Option String
  pub exit_code : Option ℤ
  pub stop_reason : Option StopReason
  pub node : Option String

pub record RuntimeEvent : Type 0 where
  pub workload_id : String
  pub state : RuntimeState
  pub at : String
  pub ports : Option (Dict ℕ)
  pub exit_code : Option ℤ
  pub stop_reason : Option StopReason

abbrev pub is_running : RuntimeState → Bool
is_running RuntimeState.running = true
is_running _ = false

-- `state in (RuntimeState.starting, RuntimeState.running)`
abbrev pub is_live : RuntimeState → Bool
is_live RuntimeState.starting = true
is_live RuntimeState.running = true
is_live _ = false

-- `state in (RuntimeState.stopped, RuntimeState.destroyed)`, also `state.value in _TERMINAL`
abbrev pub is_terminal : RuntimeState → Bool
is_terminal RuntimeState.stopped = true
is_terminal RuntimeState.destroyed = true
is_terminal _ = false

-- `StopReason.completed if code == 0 else StopReason.failed`
abbrev pub exit_reason : ℤ → StopReason
exit_reason code = if is_zero code then StopReason.completed else StopReason.failed

-- profiles.py
pub record Runnable : Type 0 where
  pub image : Option String
  pub command : Option (List String)

pub record Profile : Type 0 where
  pub name : String
  pub runnable : Runnable
  pub idle_timeout_sec : Option ℕ
  pub max_lifetime_sec : Option ℕ
  pub base_env : Dict String

abbrev pub ProfileRegistry : Type 0
ProfileRegistry = Dict Profile

-- ProfileRegistry.resolve
unfoldable pub resolve : ProfileRegistry → String → Option Runnable
resolve profiles name = Option.map (λ (p : Profile). p.runnable) (get profiles name)

-- what `list_workload_containers` reports of one container
pub record ContainerInfo : Type 0 where
  pub workload_id : Option String
  pub name : Option String
  pub running : Bool
  pub exit_code : Option ℤ

-- backend.py: the port to the substrate, with the state of the world that it acts on and the clocks
-- that the kernel reads. An operation that may raise says so in its result; `find` answers `none`
-- also where the backend has no such method or it raises, and so does the container list.
pub record Substrate : Type 1 where
  pub World : Type 0
  pub Handle : Type 0
  pub kind : BackendKind
  pub start : World → String → Runnable → Dict String → World × Option Handle
  pub exit_code : World → Handle → Option ℤ
  pub terminate : World → Handle → World
  pub kill : World → Handle → World
  pub cleanup : World → Handle → World × Bool
  pub find : World → String → Option Handle
  pub list_workload_containers : World → Option (List ContainerInfo)
  pub handle_of : String → String → Handle
  -- `_now()`, and `time.time()` in milliseconds
  pub stamp : World → String
  pub now : World → ℕ
  -- `time.sleep(0.02)`
  pub sleep : World → World
