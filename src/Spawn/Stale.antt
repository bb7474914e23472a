-- ===== src/Spawn/Stale.antt =====
-- bot_spawn/adapters.py: the reads that the reconcile sweeps make. updated_at, which the database
-- writes, is a parameter: a function of the row's id. Times are whole seconds.
pub mod Lists
use meeting_bot_service.Prelude.{
  ℕ, ◌+◌, Bool, true, false, not, ◌&&◌, ◌||◌, String, Option, none, some, List, [], ◌∷◌, ◌++◌, get,
  one_of, str_eq, is_empty, ◌==◌, leb, if◌then◌else◌,
}
use meeting_bot_service.Spawn.Rows.{Meeting, MeetingSession, Tables, native_eq, find_row}

-- a row of list_stale_nonterminal
pub record Stale : Type 0 where
  pub meeting_id : ℕ
  pub status : String
  pub session_uid : String
  pub container : Option String
  pub stop_requested : Bool

-- `mid in out`
unfoldable pub is_listed : ℕ → List Stale → Bool
is_listed id [] = false
is_listed id (r ∷ rs) = r.meeting_id == id || is_listed id rs

-- bool(data.get("stop_requested")) of a JSON Boolean
abbrev pub is_requested : Option String → Bool
is_requested none = false
is_requested (some v) = not (str_eq v "false" || is_empty v)

abbrev pub stale_of : Meeting → String → Stale
stale_of m uid = record {
  meeting_id = m.id;
  status = m.status;
  session_uid = uid;
  container = m.bot_container_id;
  stop_requested = is_requested (get m.fields "stop_requested");
}

-- `now - u >= grace` for a time that is there
abbrev pub is_quiet : ℕ → ℕ → Option ℕ → Bool
is_quiet now grace none = false
is_quiet now grace (some u) = leb (u + grace) now

module _ (updated : ℕ → Option ℕ) (now : ℕ) (in_status : String → Bool) (grace : String → ℕ) where
  -- the body of the loop, for a session and the row it is joined with
  unfoldable pub visit : List Stale → String → Option Meeting → List Stale
  visit out uid none = out
  visit out uid (some m) =
      if in_status m.status
        && not (is_listed m.id out || is_empty uid)
        && is_quiet now (grace m.status) (updated m.id)
      then out ++ stale_of m uid ∷ []
      else out

  -- the loop over the joined rows, from the last session to the first
  unfoldable pub stale_rows : List Meeting → List MeetingSession → List Stale
  stale_rows ms [] = []
  stale_rows ms (s ∷ ss) =
      visit (stale_rows ms ss) s.session_uid (find_row (λ m. m.id == s.meeting_id) ms)

abbrev pub non_terminal : List String
non_terminal =
    "requested" ∷ "joining" ∷ "awaiting_admission" ∷ "needs_help" ∷ "active" ∷ "stopping" ∷ []

abbrev pub is_non_terminal : String → Bool
is_non_terminal status = one_of status non_terminal

abbrev pub grace_of : ℕ → ℕ → String → ℕ
grace_of stop_grace active_grace status =
    if str_eq status "stopping" then stop_grace else active_grace

-- list_stale_nonterminal
unfoldable pub list_stale_nonterminal : (ℕ → Option ℕ) → ℕ → ℕ → ℕ → Tables → List Stale
list_stale_nonterminal updated now stop_grace active_grace db =
    stale_rows updated now is_non_terminal (grace_of stop_grace active_grace) db.meetings
      db.sessions

-- list_stale_stopping, whose rows have no status and no stop_requested
unfoldable pub list_stale_stopping : (ℕ → Option ℕ) → ℕ → ℕ → Tables → List Stale
list_stale_stopping updated now older_than db =
    stale_rows updated now (λ st. str_eq st "stopping") (λ _. older_than) db.meetings db.sessions

-- find_by_container: the row, and the last of its sessions
unfoldable pub last_session : ℕ → List MeetingSession → Option String
last_session id [] = none
last_session id (s ∷ ss) = elim (last_session id ss) [
  | some uid ↦ some uid
  | none ↦ if s.meeting_id == id then some s.session_uid else none
]

unfoldable pub find_by_container : Tables → String → Option (Meeting × Option String)
find_by_container db container =
    elim (find_row (λ m. native_eq m.bot_container_id (some container)) db.meetings) [
      | none ↦ none
      | some m ↦ some (m, last_session m.id db.sessions)
    ]
