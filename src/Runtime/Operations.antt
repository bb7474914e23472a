-- ===== src/Runtime/Operations.antt =====
-- Sequences of the operations that a client of the runtime calls.
use meeting_bot_service.Prelude.{String, List, [], ◌∷◌, get, count_if, arith}
use meeting_bot_service.Runtime.Models.{StopReason, WorkloadSpec, Substrate}
use meeting_bot_service.Runtime.Store.{count_for_owner, list_records}
use meeting_bot_service.Runtime.Kernel.{Config, Runtime, create, get_workload, list_workloads}
use meeting_bot_service.Runtime.Teardown.{stop, destroy}
use meeting_bot_service.Runtime.Invariant.{IsSound}
use meeting_bot_service.Runtime.Sound.{create-IsSound, get_workload-IsSound, list_from-IsSound}
use meeting_bot_service.Runtime.Ending.{stop-IsSound, destroy-IsSound}

pub data Operation : Type 0 where
  create_op : WorkloadSpec → Operation
  get_op : String → Operation
  list_op : Operation
  stop_op : String → StopReason → Operation
  destroy_op : String → Operation

module _ (B : Substrate) (cfg : Config) where
  unfoldable pub perform : Runtime B → Operation → Runtime B
  perform k (create_op spec) = (create B cfg k spec).0
  perform k (get_op id) = (get_workload B cfg k id).0
  perform k list_op = (list_workloads B cfg k).0
  perform k (stop_op id reason) = (stop B cfg k id reason).0
  perform k (destroy_op id) = (destroy B cfg k id).0

  unfoldable pub perform_all : Runtime B → List Operation → Runtime B
  perform_all k [] = k
  perform_all k (op ∷ ops) = perform_all (perform k op) ops

  perform-IsSound :
      (k : Runtime B) (op : Operation) → IsSound B cfg k → IsSound B cfg (perform k op)
  unfolding perform list_workloads
  perform-IsSound k (create_op spec) h = create-IsSound B cfg k spec h
  perform-IsSound k (get_op id) h = get_workload-IsSound B cfg k id h
  perform-IsSound k list_op h = list_from-IsSound B cfg k (list_records k.store) h
  perform-IsSound k (stop_op id reason) h = stop-IsSound B cfg k id reason h
  perform-IsSound k (destroy_op id) h = destroy-IsSound B cfg k id h

  -- Over every substrate, and whatever it answers, any sequence of create, get, list, stop and destroy
  -- that starts from a sound runtime ends in one: records stand under their own ids, no owner has more
  -- active workloads than the quota, and each record is in the state of the last event of its workload.
  pub perform_all-IsSound :
      (ops : List Operation) (k : Runtime B) → IsSound B cfg k → IsSound B cfg (perform_all k ops)
  unfolding perform_all
  perform_all-IsSound [] k h = h
  perform_all-IsSound (op ∷ ops) k h =
      perform_all-IsSound ops (perform k op) (perform-IsSound k op h)

  abbrev pub idle : B.World → Runtime B
  idle world = record { world = world; store = []; handles = []; events = [] }

  pub idle-IsSound : (world : B.World) → IsSound B cfg (idle world)
  unfolding get count_for_owner count_if
  idle-IsSound world = record {
    filed = λ id r found. cc;
    within = λ owner cap q. omega arith;
    told = λ id r found. cc;
  }
