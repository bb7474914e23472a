-- ===== src/Spawn/StopRoute/Stops.antt =====
-- What a stop leads to.
use mathlib.Core.Path.{subst}
use Prim.Native.String.{◌++◌ as append}
use meeting_bot_service.Prelude.{
  show_nat, ℕ, ◌≡◌, refl, sym, ap, ◌∙◌, Bool, true, String, none, some, [], ◌∷◌, ◌==◌, Dict, one_of,
  if◌then◌else◌, inl, inr, arith,
}
use meeting_bot_service.Lifecycle.Stop.{leave_command_channel, leave_command_payload}
use meeting_bot_service.Spawn.Rows.{
  Meeting, Tables, Result, SpawnError, is_indexed, find_row, find_last, modify, list_sessions,
}
use meeting_bot_service.Spawn.Guarded.{create_meeting_guarded}
use meeting_bot_service.Spawn.Rows.Cap.{IsKeyed}
use meeting_bot_service.Spawn.Rows.Index.{any_row, find_last-some, active_link, blocks}
use meeting_bot_service.Spawn.Rows.Links.{any_row-modify, guarded_decides}
use meeting_bot_service.Spawn.Status.{with_status, find_active}
use meeting_bot_service.Spawn.StopRoute.{
  StopAnswer, Stopped, last_of, stop_change, mark_stopping, command_leave, refuse_stop, stop_row,
  stop_bot, supported_platforms,
}
use meeting_bot_service.Spawn.StopRoute.Marks.{
  TearsDown, AreMarked, modify-AreMarked, torn_down-TearsDown,
}
use meeting_bot_service.Spawn.StopRoute.Marked.{
  IsNamed, others_idle, last_of-found, found_by_id, marked-IsKeyed, mark_stopping-done, marked_rows,
  marked-IsIndexed, marked-blocks, idle-none,
}

-- the answer of a stop that has marked the row
abbrev pub Marks : Bool → Tables → Meeting → Stopped → Type 0
Marks has_runtime db m a =
    (a.answer ≡ StopAnswer.stopping m.id)
    × (a.published
        ≡ (
          append "bot_commands:meeting:" (show_nat m.id),
          record { action = "leave"; meeting_id = m.id },
        )
          ∷ [])
    × TearsDown has_runtime m a.deleted
    × AreMarked m.id db.meetings a.tables.meetings
    × (a.tables.sessions ≡ db.sessions)

module _ (has_runtime : Bool) (now : ℕ) (db : Tables) (user : ℕ) (platform native uid : String)
    (m : Meeting) (ix : is_indexed db.meetings ≡ true) (k : IsKeyed db.meetings)
    (named : IsNamed db.sessions) (served : one_of platform supported_platforms ≡ true)
    (active : find_active db user platform native ≡ some m)
    (last : last_of (list_sessions m.id db.sessions) ≡ some uid) where
  found_active : find_last (active_link user platform native) db.meetings ≡ some m
  unfolding active_link find_active
  found_active = active

  marked_tables : Tables
  marked_tables = record db { meetings = modify m.id (with_status now stop_change) db.meetings }

  still_indexed : is_indexed marked_tables.meetings ≡ true
  unfolding marked_tables marked_rows
  still_indexed = marked-IsIndexed now db user platform native m ix k found_active

  stop_runs :
      stop_bot has_runtime now db user platform native
      ≡ command_leave has_runtime db m (Result.ok marked_tables)
  unfolding stop_bot marked_tables
  stop_runs =
      let (s, known, own) = last_of-found m.id db.sessions uid named last in
      let row =
        ap (λ i. find_row (λ x. x.id == i) db.meetings) own
        ∙ found_by_id (active_link user platform native) db.meetings m k found_active in
      ap
        (λ b.
          if b
          then stop_row has_runtime now db (find_active db user platform native)
          else refuse_stop db StopAnswer.unsupported_platform)
        served
      ∙ ap (stop_row has_runtime now db) active
      ∙ ap (λ o. command_leave has_runtime db m (mark_stopping now db o)) last
      ∙ ap (command_leave has_runtime db m)
          (mark_stopping-done now db uid s m known row still_indexed)

  now_idle : find_active marked_tables user platform native ≡ none
  unfolding marked_tables find_active active_link
  now_idle =
      idle-none (active_link user platform native) marked_tables.meetings
        (others_idle user platform native now db.meetings m ix k found_active)

  stop_again :
      stop_bot has_runtime now marked_tables user platform native
      ≡ refuse_stop marked_tables StopAnswer.no_active_meeting
  unfolding stop_bot
  stop_again =
      ap
        (λ b.
          if b
          then stop_row has_runtime now marked_tables
              (find_active marked_tables user platform native)
          else refuse_stop marked_tables StopAnswer.unsupported_platform)
        served
      ∙ ap (stop_row has_runtime now marked_tables) now_idle

  still_blocks : any_row (blocks user platform native) marked_tables.meetings ≡ true
  unfolding marked_tables
  still_blocks =
      any_row-modify (active_link user platform native) (blocks user platform native)
        (with_status now stop_change) db.meetings m found_active
        (marked-blocks user platform native now m
          (find_last-some (active_link user platform native) db.meetings m found_active).0)

  still_refused :
      (extra : Dict String)
      → create_meeting_guarded marked_tables user platform native extra none
        ≡ Result.raised SpawnError.duplicate_meeting
  unfolding marked_tables
  still_refused extra =
      elim (guarded_decides marked_tables user platform native extra still_indexed
        (marked-IsKeyed now m.id db.meetings k)) [
          | inl (_, refused) ↦ refused
          | inr (free, _) ↦ ground (arith, free, still_blocks)
        ]

-- The stop of a user. Where the index holds, the ids of rows and of sessions are different, and the user
-- has an active row of the link with a session: the row of its id and no other becomes `stopping` with the
-- request to stop, and keeps all else; the leave command of the meeting is published; and the deletion of
-- its workload is asked for exactly if there is a runtime, the row names a workload, and its status was
-- requested, joining or awaiting_admission, when the bot may not listen yet. The index holds after it; a second stop finds no active meeting and does nothing; and
-- a create for the link raises DuplicateMeeting.
pub stop_settles :
    (has_runtime : Bool) (now : ℕ) (db : Tables) (user : ℕ) (platform native uid : String)
    (m : Meeting)
    → is_indexed db.meetings ≡ true
    → IsKeyed db.meetings
    → IsNamed db.sessions
    → one_of platform supported_platforms ≡ true
    → find_active db user platform native ≡ some m
    → last_of (list_sessions m.id db.sessions) ≡ some uid
    → let a = stop_bot has_runtime now db user platform native in
      Marks has_runtime db m a
      × (is_indexed a.tables.meetings ≡ true)
      × (stop_bot has_runtime now a.tables user platform native
          ≡ refuse_stop a.tables StopAnswer.no_active_meeting)
      × ((extra : Dict String)
          → create_meeting_guarded a.tables user platform native extra none
            ≡ Result.raised SpawnError.duplicate_meeting)
unfolding command_leave marked_tables leave_command_channel leave_command_payload
stop_settles has_runtime now db user platform native uid m ix k named served active last =
    subst
      (λ a.
        Marks has_runtime db m a
        × (is_indexed a.tables.meetings ≡ true)
        × (stop_bot has_runtime now a.tables user platform native
            ≡ refuse_stop a.tables StopAnswer.no_active_meeting)
        × ((extra : Dict String)
            → create_meeting_guarded a.tables user platform native extra none
              ≡ Result.raised SpawnError.duplicate_meeting))
      (sym (stop_runs has_runtime now db user platform native uid m ix k named served active last))
      (
        (
          refl,
          refl,
          torn_down-TearsDown has_runtime m,
          modify-AreMarked m.id now db.meetings,
          refl,
        ),
        still_indexed has_runtime now db user platform native uid m ix k named served active last,
        stop_again has_runtime now db user platform native uid m ix k named served active last,
        still_refused has_runtime now db user platform native uid m ix k named served active last,
      )
