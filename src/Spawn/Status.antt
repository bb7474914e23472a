-- ===== src/Spawn/Status.antt =====
-- bot_spawn/adapters.py: `update_meeting_status`, by which the lifecycle callback and the stop of a
-- user write the status of a meeting, and `find_active`.
use meeting_bot_service.Prelude.{
  ℕ, Bool, ◌&&◌, ◌||◌, String, Option, none, some, Dict, put, str_eq, ◌==◌, if◌then◌else◌,
}
use meeting_bot_service.Spawn.Rows.{
  Meeting, MeetingSession, Tables, Result, ok, raised, has_link, is_active, find_row, find_last,
  find_session, modify, save_rows,
}
use meeting_bot_service.Spawn.Guarded.{merge}

-- find_active
unfoldable pub find_active : Tables → ℕ → String → String → Option Meeting
find_active db user platform native =
    find_last (λ m. has_link user platform (some native) m && is_active m) db.meetings

-- what update_meeting_status is called with
pub record StatusChange : Type 0 where
  pub status : String
  pub completion_reason : Option String
  pub failure_stage : Option String
  pub extra : Dict String

abbrev pub put_given : Dict String → String → Option String → Dict String
put_given d k none = d
put_given d k (some v) = put d k v

-- the time now, where the test holds and there is none yet
abbrev pub stamp_time : Bool → ℕ → Option ℕ → Option ℕ
stamp_time b now (some t) = some t
stamp_time b now none = if b then some now else none

abbrev pub with_status : ℕ → StatusChange → Meeting → Meeting
with_status now c m = record m {
  status = c.status;
  fields =
      merge
        (put_given (put_given m.fields "completion_reason" c.completion_reason) "failure_stage"
          c.failure_stage)
        c.extra;
  start_time = stamp_time (str_eq c.status "active") now m.start_time;
  end_time = stamp_time (str_eq c.status "completed" || str_eq c.status "failed") now m.end_time;
}

abbrev pub with_row : Result (Tables × Meeting) → Result (Tables × Option Meeting)
with_row (ok (db', m')) = Result.ok (db', some m')
with_row (raised e) = Result.raised e

-- the write to the row of the session
unfoldable pub change_row :
    ℕ → Tables → StatusChange → Option Meeting → Result (Tables × Option Meeting)
change_row now db c none = Result.ok (db, none)
change_row now db c (some m) =
    with_row (save_rows db (modify m.id (with_status now c) db.meetings) (with_status now c m))

-- the write to the row of a session that may not be known
abbrev pub change_session :
    ℕ → Tables → StatusChange → Option MeetingSession → Result (Tables × Option Meeting)
change_session now db c none = Result.ok (db, none)
change_session now db c (some s) =
    change_row now db c (find_row (λ m. m.id == s.meeting_id) db.meetings)

-- update_meeting_status: a session that is not known changes nothing
unfoldable pub update_meeting_status :
    ℕ → Tables → String → StatusChange → Result (Tables × Option Meeting)
update_meeting_status now db uid c = change_session now db c (find_session uid db.sessions)
