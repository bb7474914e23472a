-- ===== src/Tests/EnforcementRuns.antt =====
-- The theorems on enforcement.py and callbacks.py.
use meeting_bot_service.Prelude.{none, some, [], ◌∷◌, ◌≡◌, refl, get, put, count_if}
use meeting_bot_service.Runtime.Models.{RuntimeState, resolve}
use meeting_bot_service.Runtime.Store.{
  default_owner, get_record, set_record, list_records, count_for_owner,
}
use meeting_bot_service.Runtime.Kernel.{
  create, get_workload, spawn, over_quota, launch, settle, emit, persist,
}
use meeting_bot_service.Runtime.Operations.{perform, perform_all}
use meeting_bot_service.Runtime.Enforcement.{Tracked, sweep}
use meeting_bot_service.Runtime.Enforcement.Verdicts.{Swept, sweep-Swept}
use meeting_bot_service.Runtime.Callbacks.{Pending, Poster}
use meeting_bot_service.Tests.RuntimeRuns.{
  bot_record, sandbox, settings, busy, busy-IsSound, busy_filed,
}

-- the bot is tracked since 0 and was touched at 10
abbrev watched : Tracked
watched = ("w1", record { started = 0; last_active = 10 }) ∷ []

busy_listed : list_records busy.store ≡ bot_record ∷ []
unfolding perform_all create get_workload get_record set_record spawn resolve get over_quota launch
    settle emit persist put default_owner perform count_for_owner count_if list_records
busy_listed = refl

sweep-Swept_example :
    Swept sandbox settings 100 busy watched
      (list_records busy.store)
      (sweep sandbox settings 100 busy watched)
unfolding perform_all create get_workload get_record set_record spawn resolve get over_quota launch
    settle emit persist put default_owner perform count_for_owner count_if list_records
sweep-Swept_example =
    sweep-Swept sandbox settings 100 busy watched busy-IsSound (busy_filed, tt) (tt, tt)

abbrev told : Pending
told = record {
  url = "http://meeting-api/callback";
  headers = [];
  event = record {
    workload_id = "w1";
    state = RuntimeState.stopped;
    at = "now";
    ports = none;
    exit_code = none;
    stop_reason = none;
  };
  attempts = 1;
}

-- the receiver is down
abbrev down : Poster
down rec = some 503
