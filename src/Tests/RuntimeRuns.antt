-- ===== src/Tests/RuntimeRuns.antt =====
-- The theorems on runtime_kernel, over a sandbox whose one workload runs until it is killed.
use meeting_bot_service.Prelude.{
  ℕ, ◌+◌, ◌≤◌, ◌<◌, Bool, true, false, String, none, some, [], ◌∷◌, ◌++◌, ◌≡◌, ◌⊎◌, refl, get, put,
  count_if, pos, is_some, arith, if◌then◌else◌,
}
use meeting_bot_service.Runtime.Models.{
  RuntimeState, RuntimeEvent, StopReason, docker, WorkloadSpec, WorkloadStatus, Profile, Substrate,
  resolve,
}
use meeting_bot_service.Runtime.Store.{
  WorkloadRecord, default_owner, get_record, set_record, count_for_owner,
}
use meeting_bot_service.Runtime.Kernel.{
  Config, Runtime, ok, raised, cleanup_failed, create, spawn, over_quota, launch, settle, emit,
  persist, handle_for, get_workload,
}
use meeting_bot_service.Runtime.Teardown.{destroy, shutdown}
use meeting_bot_service.Runtime.Invariant.{IsSound}
use meeting_bot_service.Runtime.Operations.{
  create_op, stop_op, destroy_op, list_op, perform, perform_all, perform_all-IsSound, idle,
  idle-IsSound,
}
use meeting_bot_service.Runtime.Outcomes.{destroy_honest}
use meeting_bot_service.Runtime.Window.{sleeps, shutdown_window}

-- a world with a clock, where the workload runs or has been killed
pub record World : Type 0 where
  clock : ℕ
  alive : Bool

abbrev pub sandbox : Substrate
sandbox = record {
  World = World;
  Handle = String;
  kind = docker;
  start = λ w id runnable env. (record w { alive = true }, some id);
  exit_code = λ w h. if w.alive then none else some (pos 137);
  terminate = λ w h. w;
  kill = λ w h. record w { alive = false };
  cleanup = λ w h. (w, true);
  find = λ w id. none;
  list_workload_containers = λ w.
      some (
        record { workload_id = some "w1"; name = some "n1"; running = true; exit_code = none }
        ∷ []);
  handle_of = λ id name. name;
  stamp = λ w. "now";
  now = λ w. w.clock;
  sleep = λ w. record w { clock = w.clock + 20 };
}

abbrev bot_profile : Profile
bot_profile = record {
  name = "bot";
  runnable = record { image = some "vexa-bot"; command = none };
  idle_timeout_sec = none;
  max_lifetime_sec = none;
  base_env = [];
}

abbrev pub settings : Config
settings = record {
  profiles = ("bot", bot_profile) ∷ [];
  grace_ms = 50;
  owner_resolver = λ spec. default_owner spec;
  owner_quota = some 2;
}

abbrev bot_spec : WorkloadSpec
bot_spec = record {
  workload_id = "w1";
  profile = "bot";
  env = ("VEXA_OWNER", "alice") ∷ [];
  callback_url = none;
  resources = none;
  idle_timeout_sec = none;
  max_lifetime_sec = none;
  backend = none;
}

abbrev at_rest : Runtime sandbox
at_rest = idle sandbox settings (record { clock = 0; alive = false })

abbrev bot_status : WorkloadStatus
bot_status = record {
  workload_id = "w1";
  profile = "bot";
  state = RuntimeState.running;
  backend = docker;
  ports = some [];
  started_at = some "now";
  stopped_at = none;
  exit_code = none;
  stop_reason = none;
  node = none;
}

abbrev pub bot_record : WorkloadRecord
bot_record = record { spec = bot_spec; status = bot_status; owner = "alice" }

-- the runtime in which the bot was created
abbrev pub busy : Runtime sandbox
busy = perform_all sandbox settings at_rest (create_op bot_spec ∷ [])

pub busy-IsSound : IsSound sandbox settings busy
busy-IsSound =
    perform_all-IsSound sandbox settings (create_op bot_spec ∷ []) at_rest
      (idle-IsSound sandbox settings (record { clock = 0; alive = false }))

perform_all-IsSound_example : IsSound sandbox settings (
    perform_all sandbox settings at_rest
      (create_op bot_spec ∷ list_op ∷ stop_op "w1" StopReason.stopped ∷ destroy_op "w1" ∷ []))
perform_all-IsSound_example =
    perform_all-IsSound sandbox settings
      (create_op bot_spec ∷ list_op ∷ stop_op "w1" StopReason.stopped ∷ destroy_op "w1" ∷ [])
      at_rest (idle-IsSound sandbox settings (record { clock = 0; alive = false }))

pub busy_filed : get busy.store "w1" ≡ some bot_record
unfolding perform_all create get_workload get_record set_record spawn resolve get over_quota launch
    settle emit persist put default_owner perform count_for_owner count_if
busy_filed = refl

busy_held : get busy.handles "w1" ≡ some "w1"
unfolding perform_all create get_workload get_record set_record spawn resolve get over_quota launch
    settle emit persist put default_owner perform count_for_owner count_if
busy_held = refl

busy_alive : sandbox.exit_code busy.world "w1" ≡ none
unfolding perform_all create get_workload get_record set_record spawn resolve get over_quota launch
    settle emit persist put default_owner perform count_for_owner count_if
busy_alive = refl

destroy_honest_example :
    ((status : WorkloadStatus) × ((destroy sandbox settings busy "w1").1 ≡ ok status)
      × (status.state ≡ RuntimeState.destroyed)
      × (((handle_for sandbox settings busy "w1").1 ≡ none)
          ⊎ ((h : String) × ((handle_for sandbox settings busy "w1").1 ≡ some h) × (true ≡ true)))
      × (get (destroy sandbox settings busy "w1").0.store "w1"
          ≡ some (record { spec = bot_spec; status = status; owner = default_owner bot_spec }))
      × ((e : RuntimeEvent) × ((destroy sandbox settings busy "w1").0.events
            ≡ busy.events ++ e ∷ [])
          × (e.workload_id ≡ "w1")
          × (e.state ≡ RuntimeState.destroyed)))
    ⊎ (((destroy sandbox settings busy "w1").1 ≡ raised cleanup_failed)
        × ((h : String) × ((handle_for sandbox settings busy "w1").1 ≡ some h) × (true ≡ false))
        × ((destroy sandbox settings busy "w1").0.store ≡ busy.store)
        × ((destroy sandbox settings busy "w1").0.events ≡ busy.events))
destroy_honest_example =
    destroy_honest sandbox settings busy "w1" bot_record busy-IsSound busy_filed

ticks : (w : World) → w.clock < w.clock + 20
ticks w = omega arith

abbrev asked : World
asked = record { clock = 0; alive = true }

shutdown_window_example :
    (n : ℕ) × ((is_some (sandbox.exit_code (sleeps sandbox n asked) "w1") ≡ true)
        × ((shutdown sandbox settings (idle sandbox settings asked) (some "w1")).0.world
            ≡ sleeps sandbox n asked)
      ⊎ (is_some (sandbox.exit_code (sleeps sandbox n asked) "w1") ≡ false)
        × (0 + 50 ≤ sandbox.now (sleeps sandbox n asked))
        × ((shutdown sandbox settings (idle sandbox settings asked) (some "w1")).0.world
            ≡ sandbox.kill (sleeps sandbox n asked) "w1"))
    × ((shutdown sandbox settings (idle sandbox settings asked) (some "w1")).1
        ≡ sandbox.exit_code
            (shutdown sandbox settings (idle sandbox settings asked) (some "w1")).0.world
            "w1")
shutdown_window_example = shutdown_window sandbox settings ticks (idle sandbox settings asked) "w1"
