-- ===== src/Spawn/Rows.antt =====
-- bot_spawn/adapters.py: `SqlAlchemyMeetingRepo` over the tables `meetings` and `meeting_sessions`
-- of sessions/models.py. Rows stand in the order of their insertion, which is that of created_at and
-- id. The partial unique index of `meetings` is checked where a transaction commits. In `data` a text
-- stands for itself, another value for its JSON. Each function is one transaction, serialized by its
-- locks.
pub mod Cap
pub mod Index
pub mod Links
pub mod Updates
use meeting_bot_service.Prelude.{
  ℕ, suc, ◌+◌, Bool, true, false, not, ◌&&◌, ◌||◌, String, Option, none, some, List, [], ◌∷◌, ◌++◌,
  ℤ, pos, negsuc, Dict, put, remove, one_of, str_eq, ◌==◌, is_some, ltb, leb, bit, map,
  if◌then◌else◌,
}

-- Meeting
pub record Meeting : Type 0 where
  pub id : ℕ
  pub user_id : ℕ
  pub platform : String
  pub native_meeting_id : Option String
  pub status : String
  pub bot_container_id : Option String
  pub start_time : Option ℕ
  pub end_time : Option ℕ
  pub fields : Dict String

-- MeetingSession
pub record MeetingSession : Type 0 where
  pub session_uid : String
  pub meeting_id : ℕ

pub record Tables : Type 0 where
  pub meetings : List Meeting
  pub sessions : List MeetingSession
  pub next_id : ℕ

-- what the spawn of a bot raises
pub data SpawnError : Type 0 where
  duplicate_meeting : SpawnError
  max_bots_exceeded : SpawnError
  quota_exceeded : SpawnError
  spawn_failed : SpawnError
  transcription_not_configured : SpawnError
  integrity_error : SpawnError
  not_minted : SpawnError

pub data Result {ℓ} (A : Type ℓ) : Type ℓ where
  ok : A → Result A
  raised : SpawnError → Result A

-- the statuses that the dedup query and the cap count
abbrev pub active_statuses : List String
active_statuses = "requested" ∷ "joining" ∷ "awaiting_admission" ∷ "active" ∷ []

abbrev pub terminal_statuses : List String
terminal_statuses = "completed" ∷ "failed" ∷ []

abbrev pub planned_statuses : List String
planned_statuses = "idle" ∷ "scheduled" ∷ []

abbrev pub native_eq : Option String → Option String → Bool
native_eq none n = false
native_eq (some a) none = false
native_eq (some a) (some b) = str_eq a b

-- the row is one of (user, platform, native id); in SQL no id equals a missing one
unfoldable pub has_link : ℕ → String → Option String → Meeting → Bool
has_link user platform native m =
    m.user_id == user && (str_eq m.platform platform && native_eq m.native_meeting_id native)

unfoldable pub is_active : Meeting → Bool
is_active m = one_of m.status active_statuses

unfoldable pub is_terminal : Meeting → Bool
is_terminal m = one_of m.status terminal_statuses

unfoldable pub is_planned : Meeting → Bool
is_planned m = one_of m.status planned_statuses

-- uq_meeting_active_user_platform_native, of two rows
unfoldable pub clashes : Meeting → Meeting → Bool
clashes a b =
    not (is_terminal a)
    && not (is_terminal b)
    && has_link a.user_id a.platform a.native_meeting_id b

unfoldable pub clashes_any : Meeting → List Meeting → Bool
clashes_any a [] = false
clashes_any a (b ∷ bs) = clashes a b || clashes_any a bs

-- the index holds
unfoldable pub is_indexed : List Meeting → Bool
is_indexed [] = true
is_indexed (m ∷ ms) = not (clashes_any m ms) && is_indexed ms

-- `.first()` of a query in the order of the table, and in the opposite order
unfoldable pub find_row : (Meeting → Bool) → List Meeting → Option Meeting
find_row p [] = none
find_row p (m ∷ ms) = if p m then some m else find_row p ms

abbrev pub or_else : Option Meeting → Option Meeting → Option Meeting
or_else none o = o
or_else (some m) o = some m

unfoldable pub find_last : (Meeting → Bool) → List Meeting → Option Meeting
find_last p [] = none
find_last p (m ∷ ms) = or_else (find_last p ms) (if p m then some m else none)

-- an update by primary key
unfoldable pub modify : ℕ → (Meeting → Meeting) → List Meeting → List Meeting
modify id f [] = []
modify id f (m ∷ ms) = (if m.id == id then f m else m) ∷ modify id f ms

-- the commit of a change of `meetings`
unfoldable pub save_rows : Tables → List Meeting → Meeting → Result (Tables × Meeting)
save_rows db rows m =
    if is_indexed rows
    then Result.ok (record db { meetings = rows }, m)
    else Result.raised SpawnError.integrity_error

-- find_latest
unfoldable pub find_latest : Tables → ℕ → String → String → Option Meeting
find_latest db user platform native = find_last (has_link user platform (some native)) db.meetings

abbrev pub reopened : Meeting → Meeting
reopened m = record m {
  status = "requested";
  end_time = none;
  bot_container_id = none;
  fields = remove (remove m.fields "completion_reason") "failure_stage";
}

-- reopen_meeting, of a row of the table
unfoldable pub reopen_meeting : Tables → Meeting → Result (Tables × Meeting)
reopen_meeting db m = save_rows db (modify m.id reopened db.meetings) (reopened m)

-- the rows that the cap counts, but for the row `excluded`
unfoldable pub counts : ℕ → Option ℕ → Meeting → Bool
counts user none m = m.user_id == user && (is_active m && not (str_eq m.platform "browser_session"))
counts user (some excluded) m =
    m.user_id == user
    && (is_active m && not (str_eq m.platform "browser_session"))
    && not (m.id == excluded)

unfoldable pub count_rows : (Meeting → Bool) → List Meeting → ℕ
count_rows p [] = 0
count_rows p (m ∷ ms) = bit (p m) + count_rows p ms

-- count_active_bots
unfoldable pub count_active_bots : Tables → ℕ → Option ℕ → ℕ
count_active_bots db user excluded = count_rows (counts user excluded) db.meetings

-- create_session, list_sessions
unfoldable pub create_session : Tables → ℕ → String → Tables
create_session db id uid = record db {
  sessions = db.sessions ++ (record { session_uid = uid; meeting_id = id }) ∷ [];
}

unfoldable pub list_sessions : ℕ → List MeetingSession → List String
list_sessions id [] = []
list_sessions id (s ∷ ss) =
    if s.meeting_id == id then s.session_uid ∷ list_sessions id ss else list_sessions id ss

-- set_bot_container
unfoldable pub set_bot_container : Tables → ℕ → String → Tables
set_bot_container db id container = record db {
  meetings = modify id (λ m. record m { bot_container_id = some container }) db.meetings;
}

unfoldable pub find_session : String → List MeetingSession → Option MeetingSession
find_session uid [] = none
find_session uid (s ∷ ss) = if str_eq s.session_uid uid then some s else find_session uid ss

abbrev pub status_of : Option Meeting → Option String
status_of none = none
status_of (some m) = some m.status

-- get_status_by_session
unfoldable pub get_status_by_session : Tables → String → Option String
get_status_by_session db uid = elim (find_session uid db.sessions) [
  | none ↦ none
  | some s ↦ status_of (find_row (λ m. m.id == s.meeting_id) db.meetings)
]

-- merge_meeting_data: a missing value removes the key
unfoldable pub patch : Dict String → Dict (Option String) → Dict String
patch d [] = d
patch d ((k, none) ∷ p) = patch (remove d k) p
patch d ((k, some v) ∷ p) = patch (put d k v) p

unfoldable pub merge_meeting_data : Tables → ℕ → Dict (Option String) → Tables
merge_meeting_data db id p = record db {
  meetings = modify id (λ m. record m { fields = patch m.fields p }) db.meetings;
}

-- list_scheduled_meetings
unfoldable pub list_scheduled : List Meeting → List Meeting
list_scheduled [] = []
list_scheduled (m ∷ ms) =
    let rest = list_scheduled ms in
    if str_eq m.status "scheduled"
      && (is_some m.native_meeting_id && not (str_eq m.platform "unknown"))
    then m ∷ rest
    else rest
