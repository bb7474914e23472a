-- ===== src/Spawn/Service/Outcomes.antt =====
-- What a request for a bot leaves behind.
use mathlib.Core.Path.{ap₂}
use meeting_bot_service.Prelude.{
  ℕ, ◌≡◌, refl, ◌∙◌, true, false, not, ◌&&◌, ◌==◌, String, Option, none, some, List, [], ◌∷◌, ◌++◌,
  one_of, eq_refl, Bool-cases, if_split, ◌⊎◌, inl, inr, arith, if◌then◌else◌,
}
use meeting_bot_service.Spawn.Rows.{
  Meeting, MeetingSession, Tables, Result, ok, raised, SpawnError, find_row, modify, create_session,
  list_sessions, set_bot_container, get_status_by_session,
}
use meeting_bot_service.Spawn.Service.{
  BotRequest, Environment, Launch, RuntimeCall, Answer, acquire, is_raced, named, settle_race,
  compensate, found_row, write_container, write_back, after_launch, spawn_workload, continue_with,
  request_bot,
}

-- nothing was asked of the runtime
abbrev pub Refused : Environment → Tables → Answer → Type 0
Refused env db a =
    (a.calls ≡ [])
    × ((e : SpawnError) × (a.outcome ≡ Result.raised e))
    × ((a.tables ≡ db) ⊎ (env.prepared ≡ false))

-- the runtime launched nothing
abbrev pub Unlaunched : Environment → Answer → Type 0
Unlaunched env a =
    ((asked : String) × (a.calls ≡ RuntimeCall.create_workload asked ∷ []))
    × ((e : SpawnError) × (a.outcome ≡ Result.raised e))
    × ((env.launch ≡ Launch.over_quota) ⊎ (env.launch ≡ Launch.failed))

-- a workload was launched, is not recorded, and its teardown was asked for
abbrev pub Compensated : String → String → Answer → Type 0
Compensated asked workload a =
    (a.calls ≡ RuntimeCall.create_workload asked ∷ RuntimeCall.delete_workload workload ∷ [])
    × (a.outcome ≡ Result.raised SpawnError.spawn_failed)

-- a workload was launched and stands on the returned row, whose sessions list the connection; it was
-- torn down exactly if the meeting had been stopped or had ended meanwhile
abbrev pub Recorded : Environment → String → String → Answer → Type 0
Recorded env asked workload a =
    (row : Meeting) × (uids : List String) × (a.outcome ≡ Result.ok (row, uids))
    × (row.bot_container_id ≡ some workload)
    × (one_of env.connection_id uids ≡ true)
    × (a.calls ≡ (
        if is_raced (get_status_by_session a.tables env.connection_id)
        then RuntimeCall.create_workload asked ∷ RuntimeCall.delete_workload workload ∷ []
        else RuntimeCall.create_workload asked ∷ []))

abbrev pub Settled : Environment → String → String → Answer → Type 0
Settled env asked workload a = Compensated asked workload a ⊎ Recorded env asked workload a

abbrev pub Launched : Environment → Answer → Type 0
Launched env a =
    (asked : String) × (name : String) × (env.launch ≡ Launch.launched name)
    × Settled env asked (named asked name) a

abbrev pub Accounts : Environment → Tables → Answer → Type 0
Accounts env db a = Refused env db a ⊎ (Unlaunched env a ⊎ Launched env a)

one_of-list_sessions :
    (id : ℕ) (uid : String) (ss : List MeetingSession)
    → one_of uid (list_sessions id (ss ++ (record { session_uid = uid; meeting_id = id }) ∷ []))
      ≡ true
unfolding list_sessions one_of
one_of-list_sessions id uid [] = ground (arith, eq_refl uid)
one_of-list_sessions id uid (s ∷ ss) = ground (arith, one_of-list_sessions id uid ss)

-- the row that is found after the write has the container id
find_row-set :
    (id : ℕ) (w : String) (ms : List Meeting) (row : Meeting)
    → find_row (λ m. m.id == id) (modify id (λ m. record m { bot_container_id = some w }) ms)
      ≡ some row
    → (row.bot_container_id ≡ some w) × (row.id ≡ id)
unfolding find_row modify
find_row-set id w [] row h = ground (arith, h)
find_row-set id w (m ∷ ms) row h = ground (arith, h, find_row-set id w ms row)

settle_race-Recorded :
    (env : Environment) (db : Tables) (id : ℕ) (row : Meeting) (asked workload : String)
    (ss : List MeetingSession)
    → db.sessions ≡ ss ++ (record { session_uid = env.connection_id; meeting_id = id }) ∷ []
    → (row.bot_container_id ≡ some workload) × (row.id ≡ id)
    → Recorded env asked workload
        (settle_race env db (RuntimeCall.create_workload asked ∷ []) row workload)
unfolding settle_race
settle_race-Recorded env db id row asked workload ss sessions (container, own) =
    let listed : one_of env.connection_id (list_sessions row.id db.sessions) ≡ true =
      ap₂ (λ i xs. one_of env.connection_id (list_sessions i xs)) own sessions
      ∙ one_of-list_sessions id env.connection_id ss in
    elim (Bool-cases (is_raced (get_status_by_session db env.connection_id))) [
      | inl raced ↦ (
        row,
        list_sessions row.id db.sessions,
        rw raced refl,
        container,
        listed,
        rw raced (rw raced refl),
      )
      | inr still ↦ (
        row,
        list_sessions row.id db.sessions,
        rw still refl,
        container,
        listed,
        rw still (rw still refl),
      )
    ]

created :
    (db : Tables) (id : ℕ) (uid : String)
    → (create_session db id uid).sessions
      ≡ db.sessions ++ (record { session_uid = uid; meeting_id = id }) ∷ []
unfolding create_session
created db id uid = refl

found_row-Settled :
    (env : Environment) (db db' : Tables) (id : ℕ) (asked workload : String)
    (ss : List MeetingSession)
    → db'.sessions ≡ ss ++ (record { session_uid = env.connection_id; meeting_id = id }) ∷ []
    → (found : Option Meeting)
    → ((row : Meeting) → found ≡ some row → (row.bot_container_id ≡ some workload) × (row.id ≡ id))
    → Settled env asked workload
        (found_row env db db' (RuntimeCall.create_workload asked ∷ []) workload found)
unfolding found_row
found_row-Settled env db db' id asked workload ss sessions none own = inl (refl, refl)
found_row-Settled env db db' id asked workload ss sessions (some row) own =
    inr (settle_race-Recorded env db' id row asked workload ss sessions (own row refl))

write_container-Settled :
    (env : Environment) (db : Tables) (id : ℕ) (asked workload : String) (ss : List MeetingSession)
    → db.sessions ≡ ss ++ (record { session_uid = env.connection_id; meeting_id = id }) ∷ []
    → Settled env asked workload
        (write_container env db (RuntimeCall.create_workload asked ∷ []) id workload)
unfolding write_container set_bot_container
write_container-Settled env db id asked workload ss sessions =
    let db' = set_bot_container db id workload in
    if_split (Settled env asked workload) env.container_written
      (found_row env db db' (RuntimeCall.create_workload asked ∷ []) workload
        (find_row (λ m. m.id == id) db'.meetings))
      (compensate db (RuntimeCall.create_workload asked ∷ []) workload)
      (λ _.
        found_row-Settled env db db' id asked workload ss sessions
          (find_row (λ m. m.id == id) db'.meetings) (find_row-set id workload db.meetings))
      (λ _. inl (refl, refl))

-- what the writes after a launch lead to
write_back-Settled :
    (env : Environment) (db : Tables) (m : Meeting) (asked workload : String)
    → Settled env asked workload
        (write_back env db (RuntimeCall.create_workload asked ∷ []) m workload)
unfolding write_back
write_back-Settled env db m asked workload =
    if_split (Settled env asked workload) env.session_written
      (write_container env (create_session db m.id env.connection_id)
        (RuntimeCall.create_workload asked ∷ []) m.id workload)
      (compensate db (RuntimeCall.create_workload asked ∷ []) workload)
      (λ _.
        write_container-Settled env (create_session db m.id env.connection_id) m.id asked workload
          db.sessions (created db m.id env.connection_id))
      (λ _. inl (refl, refl))

-- what the answer of the runtime leads to
after_launch-Accounts :
    (env : Environment) (db db' : Tables) (m : Meeting) (asked : String) (l : Launch)
    → env.launch ≡ l
    → Accounts env db (after_launch env db' m asked l)
unfolding after_launch
after_launch-Accounts env db db' m asked Launch.over_quota e =
    inr (inl ((asked, refl), (SpawnError.quota_exceeded, refl), inl e))
after_launch-Accounts env db db' m asked Launch.failed e =
    inr (inl ((asked, refl), (SpawnError.spawn_failed, refl), inr e))
after_launch-Accounts env db db' m asked (Launch.launched name) e =
    inr (inr (asked, name, e, write_back-Settled env db' m asked (named asked name)))

spawn-Accounts :
    (env : Environment) (db db' : Tables) (m : Meeting) → Accounts env db (spawn_workload env db' m)
unfolding spawn_workload
spawn-Accounts env db db' m =
    let asked = env.workload_name m.id env.connection_id in
    if_split (Accounts env db) env.prepared
      (after_launch env (env.meanwhile db') m asked env.launch)
      (record { tables = db'; calls = []; outcome = Result.raised SpawnError.not_minted })
      (λ _. after_launch-Accounts env db (env.meanwhile db') m asked env.launch refl)
      (λ unmade. inl (refl, (SpawnError.not_minted, refl), inr unmade))

continue_with-Accounts :
    (env : Environment) (db : Tables) (made : Result (Tables × Meeting))
    → Accounts env db (continue_with env db made)
unfolding continue_with
continue_with-Accounts env db (raised e) = inl (refl, (e, refl), inl refl)
continue_with-Accounts env db (ok (db', m)) = spawn-Accounts env db db' m

-- Every request for a bot accounts for what the runtime did. It ends in one of three ways: nothing was
-- asked of the runtime, an error is raised and the tables are as they were, unless the token or the
-- invocation could not be made; or the runtime launched nothing and an error is raised; or a workload was
-- launched, and then either its teardown was asked for and SpawnFailed is raised, or it stands on the
-- row that is returned, with the session among those listed, and its teardown was asked for exactly if
-- the meeting had been stopped or had ended meanwhile.
pub request-Accounts :
    (env : Environment) (db : Tables) (r : BotRequest) → Accounts env db (request_bot env db r)
unfolding request_bot
request-Accounts env db r =
    if_split (Accounts env db) (r.transcribe_enabled && not env.transcription)
      (record {
        tables = db;
        calls = [];
        outcome = Result.raised SpawnError.transcription_not_configured;
      })
      (continue_with env db (acquire db r))
      (λ _. inl (refl, (SpawnError.transcription_not_configured, refl), inl refl))
      (λ _. continue_with-Accounts env db (acquire db r))
