-- ===== src/Runtime/Store.antt =====
-- store.py: the workload records and their in-memory store.
use mathlib.Core.Option
use meeting_bot_service.Prelude.{
  ℕ, Bool, ◌&&◌, not, String, List, Dict, get, put, remove, values, count_if, str_eq, Option,
}
use meeting_bot_service.Runtime.Models.{WorkloadSpec, WorkloadStatus, is_terminal}

-- default_owner
unfoldable pub default_owner : WorkloadSpec → String
default_owner spec = Option.get_or (get spec.env "VEXA_OWNER") ""

pub record WorkloadRecord : Type 0 where
  pub spec : WorkloadSpec
  pub status : WorkloadStatus
  pub owner : String

-- _is_active
abbrev pub is_active : WorkloadRecord → Bool
is_active r = not (is_terminal r.status.state)

-- InMemoryStore
abbrev pub WorkloadStore : Type 0
WorkloadStore = Dict WorkloadRecord

unfoldable pub set_record : WorkloadStore → WorkloadRecord → WorkloadStore
set_record store r = put store r.spec.workload_id r

unfoldable pub get_record : WorkloadStore → String → Option WorkloadRecord
get_record store id = get store id

unfoldable pub list_records : WorkloadStore → List WorkloadRecord
list_records store = values store

unfoldable pub delete_record : WorkloadStore → String → WorkloadStore
delete_record store id = remove store id

abbrev pub occupies : String → WorkloadRecord → Bool
occupies owner r = str_eq r.owner owner && is_active r

unfoldable pub count_for_owner : WorkloadStore → String → ℕ
count_for_owner store owner = count_if (occupies owner) store
