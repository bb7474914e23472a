-- ===== src/Lib.antt =====
-- A model of the control plane of meeting-bot-service, with the theorems that make it correct.
--
-- The service sends a bot into a meeting, follows it to its end, and records what happened. The
-- meeting API (core/meetings/services/meeting-api/src/meeting_api) owns the meetings: the bot
-- reports its status to a state machine, a user may stop it, sweeps end the meetings whose bot is
-- lost, a scheduler fires later spawns, chunks of recordings are folded into records and merged into
-- one file, segments of transcripts are flushed to the durable store, and webhooks tell the clients.
-- The runtime (core/runtime/src/runtime_kernel) runs the bots as workloads on a substrate. The
-- gateway (core/gateway/services/gateway/src/gateway) limits the requests of each user and the
-- connects of each address, and the identity core (core/identity/src/identity_core) decides who may
-- read what. The sweeps of the meeting API call the runtime to tear a workload down, and hand their
-- result to the state machine as a forced terminal; a failed join becomes a job of the scheduler. A
-- request for a bot, and the sweep that joins scheduled meetings, take a row of the table of
-- meetings under the user's cap, ask the runtime for a workload and write its id back.
--
-- Prelude: the names that all modules share, Boolean tests, lists and integers over the native
-- numbers, and Python's dict as a list of pairs in insertion order (Prelude/Dicts).
--
-- Lifecycle: lifecycle/machine.py in Types (the string enums), Machine (the transition table, the
-- rehydration table, MeetingRecord, MeetingStore), Logs (_trim_bot_logs) and Sink
-- (LifecycleSink.apply_change as `apply_change`, whose body on the event's record is `step`);
-- lifecycle/stop.py in Stop; lifecycle/reconcile.py in Reconcile (the verdict, the probe, the
-- untracked window), Reconcile/Sweeps (both sweeps) and Reconcile/Synthesis (the terminal of a dead
-- workload). Graph is the transition diagram as a relation of its own. A MeetingStore is a dict of
-- records; a call returns the store after it, and an exception is a value of Outcome.
--
-- Runtime: models.py, profiles.py and backend.py in Models, store.py in Store, kernel.py in Kernel
-- (create, get, list) and Teardown (stop, destroy, adopt), enforcement.py in Enforcement,
-- callbacks.py in Callbacks. A Runtime holds the world that its backend acts on, the store, the live
-- handles and the events told. The backend is a parameter, the record Substrate of a state of the
-- world and operations on it; every theorem holds for all of them.
--
-- Spawn: bot_spawn/adapters.py and sessions/models.py in Rows (the tables with the partial unique
-- index and the operations of the repository) and Guarded (create_meeting_guarded),
-- bot_spawn/service.py in Service (request_bot), bot_spawn/auto_join.py in AutoJoin
-- (auto_join_tick), the lists for the sweeps in Stale, the write of a status in Status, and
-- lifecycle/stop_router.py in StopRoute (stop_bot). An operation that may raise returns a Result;
-- request_bot returns the tables, the calls of the runtime and its outcome.
--
-- Gateway: ratelimit.py in RateLimit, edge_guard.py in WsGuard. Identity: access.py in Access,
-- tokens.py in Tokens, dispatch_tokens.py in Dispatch. Webhooks: webhooks/ssrf.py in Guard,
-- webhooks/delivery.py in Delivery, webhooks/retry.py in Retry. Scheduling: scheduling/scheduler.py
-- in Scheduler, lifecycle/retry.py in Retry. Recordings: recordings/jsonb.py in Fold,
-- recording_codec.py in Codec. Collector: collector/db_writer.py in DbWriter (the flush of
-- segments), Processed (the drain of the processed notes and the parking of meetings) and Retention
-- (_trim_segments_stream, with the steps of the other clients of the stream). Tests: the theorems at
-- concrete inputs.
--
-- Bounds and fuel. The one loop without a structure to recurse on is the grace window of a stop
-- (Runtime/Teardown, `await_exit`). It takes one unit of fuel for each millisecond of the window and
-- one more, which is enough where a sleep moves the clock: Runtime/Window proves that the loop then
-- ends by the exit of the workload or the end of the window, never by the fuel.
--
-- What the model takes for granted:
--  - Times and amounts are natural numbers: whole seconds, milliseconds for the grace window,
--    microseconds and millionths of a token for the rate limit. A clock does not go backwards within
--    a sweep or between two requests of a user. Where the source reads the clock several times in
--    one call, the model reads it once.
--  - JSON payloads, metadata, resources and durations are opaque texts, and `str` of an event's
--    error_details is the text itself.
--  - exit_code, terminate and kill of a backend, and on_event of a Runtime, do not raise; start and
--    cleanup may. The callbacks handed out do not call back into the object that calls them.
--  - urlparse, ip_address, the resolver, json, base64, int of a text and the HMACs are parameters; a
--    payload is the text whose bytes it is. The payload of a dispatch token, its reading back and the
--    padding of base64 are written out, for JSON values that are texts, naturals, arrays and objects.
--  - XTRIM is a parameter, which may remove any of the entries below the id that it is given.
--  - Nothing is pushed to the webhook queue while a sweep drains it, and a text in it is an object with
--    the keys that enqueue writes, or no JSON at all.
--  - The Redis commands of the flush of a meeting's segments do not raise, and the values of its
--    hash are JSON objects or no JSON; json.loads, the sink and the networks of ipaddress are
--    parameters.
--  - Each operation of the meeting repository is one transaction, serialized by its locks; rows
--    stand in the order of created_at and of id. While a bot is spawned the other requests run
--    between the launch and the writes after it; minting the token and building the invocation
--    succeed or raise, and deleting a workload is asked for without an answer. In the `data` of a
--    row a text stands for itself and another value for its JSON. datetime and the texts of
--    exceptions are parameters.
--  - The bytes of a recording are numbers below 256, and a size field of a WAV file has 32 bits.
--  - croniter, the random ids and the dispatch of the scheduler are parameters; where a theorem
--    needs it, the ids are different from each other. A list of backoffs is not empty.
--  - The runtime client, the poster and the repository of the sweeps are parameters whose answers
--    may depend on all calls made before.
--
-- Not modelled: HTTP routes, schema validation and SQL; the adapters of Redis, Docker, Kubernetes
-- and object storage; the invocation of a bot; the transcript collector but for the flush of a
-- meeting's segments, the drain of its notes and the trim of the stream, calendar sync, the
-- envelopes of webhooks, the gateway's proxy and the admin API; the TypeScript bot and its clients.
pub mod Prelude
pub mod Lifecycle
pub mod Runtime
pub mod Gateway
pub mod Identity
pub mod Webhooks
pub mod Scheduling
pub mod Spawn
pub mod Recordings
pub mod Collector
pub mod Tests
