-- ===== src/Spawn/Stale/Lists.antt =====
-- Which rows the reconcile sweeps are given.
use mathlib.Core.Path.{subst}
use meeting_bot_service.Prelude.{
  ℕ, ◌+◌, leb, get, one_of, str_eq, ◌≡◌, refl, sym, ap, ◌∙◌, Bool, true, false, not, ◌&&◌, ◌||◌,
  String, Option, none, some, List, [], ◌∷◌, ◌++◌, is_empty, ◌==◌, ==_iff, All, All-append, All-map,
  arith, if◌then◌else◌, if_split, Bool-cases, inl, inr,
}
use meeting_bot_service.Spawn.Rows.{Meeting, MeetingSession, Tables, find_row}
use meeting_bot_service.Spawn.Stale.{
  Stale, is_listed, is_requested, stale_of, is_quiet, visit, stale_rows, is_non_terminal, grace_of,
  list_stale_nonterminal,
}

-- the meeting has a session with an id
unfoldable pub has_session : ℕ → List MeetingSession → Bool
has_session id [] = false
has_session id (s ∷ ss) = s.meeting_id == id && not (is_empty s.session_uid) || has_session id ss

-- the id of the last session that has one
unfoldable pub latest_uid : ℕ → List MeetingSession → Option String
latest_uid id [] = none
latest_uid id (s ∷ ss) = elim (latest_uid id ss) [
  | some uid ↦ some uid
  | none ↦ if s.meeting_id == id && not (is_empty s.session_uid) then some s.session_uid else none
]

-- no meeting is listed twice
abbrev pub IsListedOnce : List Stale → Type 0
IsListedOnce [] = Unit
IsListedOnce (r ∷ rs) = (is_listed r.meeting_id rs ≡ false) × IsListedOnce rs

find_row-id :
    (k : ℕ) (ms : List Meeting) (m : Meeting) → find_row (λ x. x.id == k) ms ≡ some m → m.id ≡ k
unfolding find_row
find_row-id k [] m h = ground (arith, h)
find_row-id k (x ∷ ms) m h = ground (arith, h, find_row-id k ms m)

is_listed-append :
    (id : ℕ) (xs : List Stale) (r : Stale)
    → is_listed id (xs ++ r ∷ []) ≡ (is_listed id xs || r.meeting_id == id)
unfolding is_listed
is_listed-append id [] r = ground arith
is_listed-append id (x ∷ xs) r = ground (arith, is_listed-append id xs r)

append-IsListedOnce :
    (xs : List Stale) (r : Stale)
    → is_listed r.meeting_id xs ≡ false
    → IsListedOnce xs
    → IsListedOnce (xs ++ r ∷ [])
unfolding is_listed
append-IsListedOnce [] r h once = (refl, tt)
append-IsListedOnce (x ∷ xs) r h (apart, once) = (
  ground (arith, h, apart, is_listed-append x.meeting_id xs r),
  append-IsListedOnce xs r (ground (arith, h)) once,
)

no_session-latest :
    (id : ℕ) (ss : List MeetingSession) → has_session id ss ≡ false → latest_uid id ss ≡ none
unfolding has_session latest_uid
no_session-latest id [] h = refl
no_session-latest id (s ∷ ss) h = ground (arith, h, no_session-latest id ss)

latest_uid-older :
    (s : MeetingSession) (ss : List MeetingSession) (id : ℕ) (uid : String)
    → latest_uid id ss ≡ some uid
    → latest_uid id (s ∷ ss) ≡ some uid
unfolding latest_uid
latest_uid-older s ss id uid h = ground (arith, h)

-- the row tells of the meeting that it names, and of its last session
abbrev Copies : List Meeting → List MeetingSession → Stale → Type 0
Copies ms ss r =
    (m : Meeting) × (find_row (λ x. x.id == r.meeting_id) ms ≡ some m)
    × (r ≡ stale_of m r.session_uid)
    × (latest_uid r.meeting_id ss ≡ some r.session_uid)

module _ (updated : ℕ → Option ℕ) (now : ℕ) (in_status : String → Bool) (grace : String → ℕ) where
  -- the row is in one of the statuses and has been quiet for its window
  abbrev is_stale : Option Meeting → Bool
  is_stale none = false
  is_stale (some m) = in_status m.status && is_quiet now (grace m.status) (updated m.id)

  is_listed-visit :
      (id k : ℕ) (out : List Stale) (uid : String) (o : Option Meeting)
      → ((m : Meeting) → o ≡ some m → m.id ≡ k)
      → is_listed id (visit updated now in_status grace out uid o)
        ≡ (is_listed id out || k == id && not (is_empty uid) && is_stale o)
  unfolding visit
  is_listed-visit id k out uid none own = ground arith
  is_listed-visit id k out uid (some m) own =
      ground (arith, own m refl, is_listed-append id out (stale_of m uid))

  visit-IsListedOnce :
      (out : List Stale) (uid : String) (o : Option Meeting)
      → IsListedOnce out
      → IsListedOnce (visit updated now in_status grace out uid o)
  unfolding visit
  visit-IsListedOnce out uid none once = once
  visit-IsListedOnce out uid (some m) once =
      if_split IsListedOnce
        (in_status m.status
          && not (is_listed m.id out || is_empty uid)
          && is_quiet now (grace m.status) (updated m.id))
        (out ++ stale_of m uid ∷ []) out
        (λ h. append-IsListedOnce out (stale_of m uid) (ground (arith, h)) once) (λ _. once)

  stale_rows-IsListedOnce :
      (ms : List Meeting) (ss : List MeetingSession)
      → IsListedOnce (stale_rows updated now in_status grace ms ss)
  unfolding stale_rows
  stale_rows-IsListedOnce ms [] = tt
  stale_rows-IsListedOnce ms (s ∷ ss) =
      visit-IsListedOnce (stale_rows updated now in_status grace ms ss) s.session_uid
        (find_row (λ m. m.id == s.meeting_id) ms) (stale_rows-IsListedOnce ms ss)

  abbrev row_at : List Meeting → ℕ → Option Meeting
  row_at ms id = find_row (λ m. m.id == id) ms

  is_listed-stale_rows :
      (id : ℕ) (ms : List Meeting) (ss : List MeetingSession)
      → is_listed id (stale_rows updated now in_status grace ms ss)
        ≡ (has_session id ss && is_stale (row_at ms id))
  unfolding stale_rows has_session is_listed
  is_listed-stale_rows id ms [] = refl
  is_listed-stale_rows id ms (s ∷ ss) =
      let out = stale_rows updated now in_status grace ms ss in
      let row = row_at ms s.meeting_id in
      let visited =
        is_listed-visit id s.meeting_id out s.session_uid row (find_row-id s.meeting_id ms) in
      elim (Bool-cases (s.meeting_id == id)) [
        | inl same ↦
            let moved : is_stale row ≡ is_stale (row_at ms id) =
              ap (λ k. is_stale (row_at ms k)) ((==_iff s.meeting_id id).0 same) in
            ground (arith, visited, moved, is_listed-stale_rows id ms ss)
        | inr other ↦ ground (arith, visited, is_listed-stale_rows id ms ss)
      ]

  -- a row that is new to the list has its last session here
  fresh_latest :
      (ms : List Meeting) (s : MeetingSession) (ss : List MeetingSession) (m : Meeting)
      → row_at ms m.id ≡ some m
      → m.id ≡ s.meeting_id
      → (in_status m.status
          && not (
              is_listed m.id (stale_rows updated now in_status grace ms ss)
              || is_empty s.session_uid)
          && is_quiet now (grace m.status) (updated m.id))
        ≡ true
      → latest_uid m.id (s ∷ ss) ≡ some s.session_uid
  unfolding latest_uid
  fresh_latest ms s ss m found own h =
      let stale : is_stale (row_at ms m.id) ≡ is_stale (some m) = ap is_stale found in
      let none_yet : has_session m.id ss ≡ false =
        ground (arith, h, stale, is_listed-stale_rows m.id ms ss) in
      ground (arith, h, sym own, no_session-latest m.id ss none_yet)

  visit-Copies :
      (ms : List Meeting) (s : MeetingSession) (ss : List MeetingSession) (o : Option Meeting)
      → row_at ms s.meeting_id ≡ o
      → All (Copies ms (s ∷ ss)) (stale_rows updated now in_status grace ms ss)
      → All (Copies ms (s ∷ ss)) (
          visit updated now in_status grace
            (stale_rows updated now in_status grace ms ss)
            s.session_uid
            o)
  unfolding visit
  visit-Copies ms s ss none found rest = rest
  visit-Copies ms s ss (some m) found rest =
      let out = stale_rows updated now in_status grace ms ss in
      let own = find_row-id s.meeting_id ms m found in
      let found' : row_at ms m.id ≡ some m = ap (row_at ms) own ∙ found in
      if_split (All (Copies ms (s ∷ ss)))
        (in_status m.status
          && not (is_listed m.id out || is_empty s.session_uid)
          && is_quiet now (grace m.status) (updated m.id))
        (out ++ stale_of m s.session_uid ∷ []) out
        (λ h.
          All-append (Copies ms (s ∷ ss)) out (stale_of m s.session_uid ∷ []) rest
            ((m, found', refl, fresh_latest ms s ss m found' own h), tt))
        (λ _. rest)

  stale_rows-Copies :
      (ms : List Meeting) (ss : List MeetingSession)
      → All (Copies ms ss) (stale_rows updated now in_status grace ms ss)
  unfolding stale_rows
  stale_rows-Copies ms [] = tt
  stale_rows-Copies ms (s ∷ ss) = visit-Copies ms s ss (row_at ms s.meeting_id) refl (
      All-map (Copies ms ss) (Copies ms (s ∷ ss)) (stale_rows updated now in_status grace ms ss)
        (λ r (m, found, same, last).
          (m, found, same, latest_uid-older s ss r.meeting_id r.session_uid last))
        (stale_rows-Copies ms ss))

-- the statuses that a sweep may end
abbrev pub open_statuses : List String
open_statuses =
    "requested" ∷ "joining" ∷ "awaiting_admission" ∷ "needs_help" ∷ "active" ∷ "stopping" ∷ []

-- the row was written at least this long ago; one without a time was not
abbrev pub has_waited : ℕ → ℕ → Option ℕ → Bool
has_waited now window none = false
has_waited now window (some written) = leb (written + window) now

-- the row is there, in an open status, and has waited for the window of that status
abbrev pub is_due : (ℕ → Option ℕ) → ℕ → ℕ → ℕ → Option Meeting → Bool
is_due updated now stop_grace active_grace none = false
is_due updated now stop_grace active_grace (some m) =
    one_of m.status open_statuses
    && (if str_eq m.status "stopping"
        then has_waited now stop_grace (updated m.id)
        else has_waited now active_grace (updated m.id))

-- whether the row asks for a stop: a JSON Boolean, or nothing
abbrev pub Asks : Option String → Bool → Type 0
Asks none asked = asked ≡ false
Asks (some v) asked = asked ≡ not (str_eq v "false" || is_empty v)

-- the listed row has the status, the container and the request to stop of the meeting that it names,
-- and the id of the last session of it
abbrev pub Tells : List Meeting → List MeetingSession → Stale → Type 0
Tells ms ss r =
    (m : Meeting) × (find_row (λ x. x.id == r.meeting_id) ms ≡ some m)
    × (r.status ≡ m.status)
    × (r.container ≡ m.bot_container_id)
    × Asks (get m.fields "stop_requested") r.stop_requested
    × (latest_uid r.meeting_id ss ≡ some r.session_uid)

is_quiet-waited :
    (now stop_grace active_grace : ℕ) (status : String) (o : Option ℕ)
    → is_quiet now (grace_of stop_grace active_grace status) o ≡ (
        if str_eq status "stopping"
        then has_waited now stop_grace o
        else has_waited now active_grace o)
is_quiet-waited now stop_grace active_grace status none = ground arith
is_quiet-waited now stop_grace active_grace status (some u) = ground arith

is_stale-due :
    (updated : ℕ → Option ℕ) (now stop_grace active_grace : ℕ) (o : Option Meeting)
    → is_stale updated now is_non_terminal (grace_of stop_grace active_grace) o
      ≡ is_due updated now stop_grace active_grace o
is_stale-due updated now stop_grace active_grace none = refl
is_stale-due updated now stop_grace active_grace (some m) =
    ap (λ b. one_of m.status open_statuses && b)
      (is_quiet-waited now stop_grace active_grace m.status (updated m.id))

is_requested-Asks : (o : Option String) → Asks o (is_requested o)
is_requested-Asks none = refl
is_requested-Asks (some v) = refl

Copies-Tells :
    (ms : List Meeting) (ss : List MeetingSession) (r : Stale) → Copies ms ss r → Tells ms ss r
Copies-Tells ms ss r (m, found, same, last) = (
  m,
  found,
  ap (λ (x : Stale). x.status) same,
  ap (λ (x : Stale). x.container) same,
  subst (Asks (get m.fields "stop_requested")) (sym (ap (λ (x : Stale). x.stop_requested) same))
      (is_requested-Asks (get m.fields "stop_requested")),
  last,
)

-- The sweeps are given each stale meeting once. A meeting is on the list of list_stale_nonterminal
-- exactly if its row is in one of the six non-terminal statuses, was written at least the window of
-- that status ago, and has a session with an id. It is there once, with the status, the container and
-- the request to stop of its row, and with the id of its last session.
pub nonterminal_listing :
    (updated : ℕ → Option ℕ) (now stop_grace active_grace : ℕ) (db : Tables)
    → ((id : ℕ)
        → is_listed id (list_stale_nonterminal updated now stop_grace active_grace db) ≡ (
            has_session id db.sessions
            && is_due updated now stop_grace active_grace (find_row (λ m. m.id == id) db.meetings)))
      × IsListedOnce (list_stale_nonterminal updated now stop_grace active_grace db)
      × All
          (Tells db.meetings db.sessions)
          (list_stale_nonterminal updated now stop_grace active_grace db)
unfolding list_stale_nonterminal
nonterminal_listing updated now stop_grace active_grace db =
    let grace = grace_of stop_grace active_grace in
    let rows = stale_rows updated now is_non_terminal grace db.meetings db.sessions in
    (
      λ id.
          is_listed-stale_rows updated now is_non_terminal grace id db.meetings db.sessions
          ∙ ap (λ b. has_session id db.sessions && b)
              (is_stale-due updated now stop_grace active_grace
                (find_row (λ m. m.id == id) db.meetings)),
      stale_rows-IsListedOnce updated now is_non_terminal grace db.meetings db.sessions,
      All-map (Copies db.meetings db.sessions) (Tells db.meetings db.sessions) rows
          (Copies-Tells db.meetings db.sessions)
          (stale_rows-Copies updated now is_non_terminal grace db.meetings db.sessions),
    )
