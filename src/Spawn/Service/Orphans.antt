-- ===== src/Spawn/Service/Orphans.antt =====
-- What a failed launch leaves behind.
use meeting_bot_service.Prelude.{
  ℕ, ◌≡◌, refl, sym, ap, ◌∙◌, true, false, not, ◌&&◌, String, Option, none, [], ◌∷◌, ◌==◌, inl, inr,
  arith, if◌then◌else◌,
}
use meeting_bot_service.Spawn.Rows.{
  Meeting, Tables, Result, ok, raised, SpawnError, is_indexed, find_row,
}
use meeting_bot_service.Spawn.Guarded.{create_meeting_guarded}
use meeting_bot_service.Spawn.Rows.Cap.{IsKeyed}
use meeting_bot_service.Spawn.Rows.Index.{any_row, active_link}
use meeting_bot_service.Spawn.Rows.Links.{Creates, guarded_decides, active_blocks}
use meeting_bot_service.Spawn.Service.{
  BotRequest, Environment, Launch, Answer, RuntimeCall, meeting_data, reused_row, acquire,
  after_launch, spawn_workload, continue_with, request_bot,
}
use meeting_bot_service.Spawn.Stale.{is_listed, list_stale_nonterminal}
use meeting_bot_service.Spawn.Stale.Lists.{has_session, is_due, nonterminal_listing}

-- the request is for a new run without a cap
abbrev pub IsPlain : BotRequest → Type 0
IsPlain r = (r.continue_meeting ≡ false) × (r.max_concurrent ≡ none)

-- the environment answers that a transcription backend is there
abbrev pub Hears : Environment → BotRequest → Type 0
Hears env r = (r.transcribe_enabled && not env.transcription) ≡ false

module _ (r : BotRequest) (plain : IsPlain r) where
  acquire_plain :
      (db : Tables)
      → acquire db r
        ≡ create_meeting_guarded db r.user_id r.platform r.native_meeting_id (meeting_data r) none
  unfolding acquire reused_row
  acquire_plain db =
      let fresh : reused_row db r ≡ none = rw (plain.0) refl in
      rw (acquire, fresh)
        (ap (create_meeting_guarded db r.user_id r.platform r.native_meeting_id (meeting_data r))
          plain.1)

  request_acquires :
      (env : Environment) (db : Tables)
      → Hears env r
      → request_bot env db r ≡ continue_with env db (acquire db r)
  unfolding request_bot
  request_acquires env db hears = rw hears refl

-- the tables of a transaction that has not raised
abbrev made_tables : Tables → Result (Tables × Meeting) → Tables
made_tables db (ok (db', m)) = db'
made_tables db (raised e) = db

created_active :
    (db db' : Tables) (user : ℕ) (platform native : String) (made : Result (Tables × Meeting))
    (m : Meeting)
    → Creates db user platform native made
    → made ≡ Result.ok (db', m)
    → any_row (active_link user platform native) db'.meetings ≡ true
created_active db db' user platform native made m (inl (_, refused)) h = ground (arith, refused, h)
created_active db db' user platform native made m (inr (_, (d, n, done, _, _, _, active))) h =
    ap (λ t. any_row (active_link user platform native) t.meetings)
      (ap (made_tables db) (sym h ∙ done))
    ∙ active

launch_failed :
    (env : Environment) (db db' : Tables) (m : Meeting)
    → env.prepared ≡ true
    → env.launch ≡ Launch.failed
    → env.meanwhile db' ≡ db'
    → continue_with env db (Result.ok (db', m)) ≡ record {
      tables = db';
      calls = RuntimeCall.create_workload (env.workload_name m.id env.connection_id) ∷ [];
      outcome = Result.raised SpawnError.spawn_failed;
    }
unfolding continue_with spawn_workload after_launch
launch_failed env db db' m prepared failed alone =
    let asked = env.workload_name m.id env.connection_id in
    ap
      (λ b.
        if b
        then after_launch env (env.meanwhile db') m asked env.launch
        else record { tables = db'; calls = []; outcome = Result.raised SpawnError.not_minted })
      prepared
    ∙ ap (after_launch env (env.meanwhile db') m asked) failed
    ∙ ap (λ t. after_launch env t m asked Launch.failed) alone

-- A spawn whose launch has failed leaves an orphan. Where the index holds, the ids of the rows are
-- different, and a request for a new run without a cap has made its row, which has no session: once the
-- runtime has refused to start the workload, and while no other request changes the tables, the request
-- raises SpawnFailed, and the row is not on the list of list_stale_nonterminal however long it is quiet.
-- The same request again raises DuplicateMeeting, whatever its environment answers, so long as it asks
-- for no transcription or a transcription backend is configured, then as for the first request.
pub failed_launch_orphans :
    (env env' : Environment) (db db' : Tables) (r : BotRequest) (m : Meeting)
    (updated : ℕ → Option ℕ) (now stop_grace active_grace : ℕ)
    → is_indexed db.meetings ≡ true
    → IsKeyed db.meetings
    → IsPlain r
    → Hears env r
    → Hears env' r
    → acquire db r ≡ Result.ok (db', m)
    → has_session m.id db'.sessions ≡ false
    → env.prepared ≡ true
    → env.launch ≡ Launch.failed
    → env.meanwhile db' ≡ db'
    → let a = request_bot env db r in
      (a.outcome ≡ Result.raised SpawnError.spawn_failed)
      × (is_listed m.id (list_stale_nonterminal updated now stop_grace active_grace a.tables)
          ≡ false)
      × ((request_bot env' a.tables r).outcome ≡ Result.raised SpawnError.duplicate_meeting)
unfolding continue_with
failed_launch_orphans env env' db db' r m updated now stop_grace active_grace ix k plain hears
      hears' made alone prepared failed quiet =
    let ran =
      request_acquires r plain env db hears
      ∙ ap (continue_with env db) made
      ∙ launch_failed env db db' m prepared failed quiet in
    let created = sym (acquire_plain r plain db) ∙ made in
    let active =
      created_active db db' r.user_id r.platform r.native_meeting_id
        (create_meeting_guarded db r.user_id r.platform r.native_meeting_id (meeting_data r) none) m
        (guarded_decides db r.user_id r.platform r.native_meeting_id (meeting_data r) ix k)
        created in
    let refused =
      acquire_plain r plain db'
      ∙ active_blocks db' r.user_id r.platform r.native_meeting_id (meeting_data r) active in
    let unseen =
      (nonterminal_listing updated now stop_grace active_grace db').0 m.id
      ∙ ap
          (λ b.
            b
            && is_due updated now stop_grace active_grace
                (find_row (λ x. x.id == m.id) db'.meetings))
          alone in
    let again = request_acquires r plain env' db' hears' ∙ ap (continue_with env' db') refused in
    (
      ap (λ (a : Answer). a.outcome) ran,
      ap
            (λ (a : Answer).
              is_listed m.id (list_stale_nonterminal updated now stop_grace active_grace a.tables))
            ran
          ∙ unseen,
      ap (λ (a : Answer). (request_bot env' a.tables r).outcome) ran
          ∙ ap (λ (a : Answer). a.outcome) again,
    )
