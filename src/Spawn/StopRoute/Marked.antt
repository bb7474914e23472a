-- ===== src/Spawn/StopRoute/Marked.antt =====
-- The row that a stop has marked.
use mathlib.Core.Path.{subst}
use meeting_bot_service.Prelude.{
  ℕ, ◌≡◌, refl, ap, ◌∙◌, Bool, true, false, String, none, some, List, [], ◌∷◌, str_eq, eq_iff,
  eq_refl, ◌==◌, ==_iff, All, Bool-cases, Option-cases, inl, inr, arith, if◌then◌else◌, if_split,
  one_of,
}
use meeting_bot_service.Spawn.Rows.{
  Meeting, MeetingSession, Tables, Result, SpawnError, has_link, is_active, is_terminal, is_indexed,
  find_row, find_last, find_session, modify, save_rows, list_sessions, is_planned,
}
use meeting_bot_service.Spawn.Rows.Cap.{IsKeyed, modify_absent}
use meeting_bot_service.Spawn.Rows.Index.{
  any_row, find_last-none, find_last-some, active_link, open_link, blocks, active-blocks,
  blocks-open, clashes_any-open, active-IsApart, any_row_mono,
}
use meeting_bot_service.Spawn.Rows.Updates.{is_indexed-modify, found-Open, find_last-All}
use meeting_bot_service.Spawn.Status.{
  with_status, with_row, change_row, change_session, update_meeting_status,
}
use meeting_bot_service.Spawn.StopRoute.{last_of, or_last, stop_change, mark_stopping, tables_of}

-- the ids of the sessions are different
abbrev pub IsNamed : List MeetingSession → Type 0
IsNamed [] = Unit
IsNamed (s ∷ ss) = All (λ r. str_eq r.session_uid s.session_uid ≡ false) ss × IsNamed ss

module _ (user : ℕ) (platform native : String) (now : ℕ) where
  abbrev marked : Meeting → Meeting
  marked = with_status now stop_change

  -- a marked row is not active, and still open
  marked-idle : (m : Meeting) → active_link user platform native (marked m) ≡ false
  unfolding active_link is_active one_of
  marked-idle m = ground arith

  pub marked-blocks :
      (m : Meeting)
      → active_link user platform native m ≡ true
      → blocks user platform native (marked m) ≡ true
  unfolding active_link blocks has_link is_terminal is_planned one_of
  marked-blocks m h = ground (arith, h)

  active-open :
      (m : Meeting)
      → active_link user platform native m ≡ true
      → open_link user platform native m ≡ true
  active-open m h = blocks-open user platform native m (active-blocks user platform native m h)

  -- the active row of a link is its only one
  pub others_idle :
      (ms : List Meeting) (m : Meeting)
      → is_indexed ms ≡ true
      → IsKeyed ms
      → find_last (active_link user platform native) ms ≡ some m
      → any_row (active_link user platform native) (modify m.id marked ms) ≡ false
  unfolding is_indexed find_last modify any_row
  others_idle [] m ix k e = ground (arith, e)
  others_idle (x ∷ xs) m ix k e =
      let p = active_link user platform native in
      elim (Option-cases (find_last p xs)) [
        | inr (y, later) ↦
            let found = later ∙ (rw later at e) in
            let other = find_last-All p (λ r. (r.id == x.id) ≡ false) xs m k.0 found in
            let opened : any_row (open_link user platform native) xs ≡ true =
              any_row_mono p (open_link user platform native) xs active-open
                (find_last-some p xs m found).1 in
            ground (
              arith,
              ix,
              opened,
              other,
              active-open x,
              clashes_any-open user platform native x xs,
              others_idle xs m (ground (arith, ix)) k.1 found,
            )
        | inl last ↦ elim (Bool-cases (p x)) [
          | inl here ↦
              let same : x ≡ m = ground (arith, rw (last, here) at e) in
              subst (λ y. any_row p (modify y.id marked (x ∷ xs)) ≡ false) same
                (rw (modify_absent x.id marked xs k.0)
                  (ground (arith, marked-idle x, find_last-none p xs last)))
          | inr there ↦ ground (arith, rw (last, there) at e)
        ]
      ]

find_session-apart :
    (a uid : String) (ss : List MeetingSession) (t : MeetingSession)
    → All (λ r. str_eq r.session_uid a ≡ false) ss
    → find_session uid ss ≡ some t
    → str_eq a uid ≡ false
unfolding find_session
find_session-apart a uid [] t h e = ground (arith, e)
find_session-apart a uid (s ∷ ss) t h e = ground (
  arith,
  h.0,
  e,
  eq_iff s.session_uid a,
  eq_iff s.session_uid uid,
  eq_iff a uid,
  find_session-apart a uid ss t h.1,
)

-- the last session of a meeting is found by its id
pub last_of-found :
    (id : ℕ) (ss : List MeetingSession) (uid : String)
    → IsNamed ss
    → last_of (list_sessions id ss) ≡ some uid
    → (s : MeetingSession) × (find_session uid ss ≡ some s) × (s.meeting_id ≡ id)
unfolding list_sessions find_session
last_of-found id [] uid named h = ground (arith, h)
last_of-found id (s ∷ ss) uid named h = elim (Bool-cases (s.meeting_id == id)) [
  | inr other ↦
      let (t, found, own) = last_of-found id ss uid named.1 (rw other at h) in
      (t, rw (find_session-apart s.session_uid uid ss t named.0 found) found, own)
  | inl here ↦
      let last : or_last (last_of (list_sessions id ss)) s.session_uid ≡ some uid = rw here at h in
      elim (Option-cases (last_of (list_sessions id ss))) [
        | inr (v, later) ↦
            let (t, found, own) = last_of-found id ss uid named.1 (later ∙ (rw later at last)) in
            (t, rw (find_session-apart s.session_uid uid ss t named.0 found) found, own)
        | inl none_later ↦
            let same : some s.session_uid ≡ some uid = rw none_later at last in
            (s, ground (arith, same, eq_refl uid), (==_iff s.meeting_id id).0 here)
      ]
]

-- the row that a query finds is found by its id
pub found_by_id :
    (p : Meeting → Bool) (ms : List Meeting) (m : Meeting)
    → IsKeyed ms
    → find_last p ms ≡ some m
    → find_row (λ x. x.id == m.id) ms ≡ some m
unfolding find_last find_row
found_by_id p [] m k e = ground (arith, e)
found_by_id p (x ∷ xs) m k e = elim (Option-cases (find_last p xs)) [
  | inr (y, later) ↦
      let found = later ∙ (rw later at e) in
      let other = find_last-All p (λ r. (r.id == x.id) ≡ false) xs m k.0 found in
      ground (arith, other, found_by_id p xs m k.1 found)
  | inl last ↦ elim (Bool-cases (p x)) [
    | inl here ↦ let same : x ≡ m = ground (arith, rw (last, here) at e) in ground (arith, same)
    | inr there ↦ ground (arith, rw (last, there) at e)
  ]
]

module _ (now id : ℕ) where
  marked-apart :
      (k : ℕ) (ms : List Meeting)
      → All (λ r. (r.id == k) ≡ false) ms
      → All (λ r. (r.id == k) ≡ false) (modify id (with_status now stop_change) ms)
  unfolding modify
  marked-apart k [] h = tt
  marked-apart k (m ∷ ms) h = (ground (arith, h.0), marked-apart k ms h.1)

  pub marked-IsKeyed :
      (ms : List Meeting) → IsKeyed ms → IsKeyed (modify id (with_status now stop_change) ms)
  unfolding modify
  marked-IsKeyed [] k = tt
  marked-IsKeyed (m ∷ ms) k = (
    if_split (λ x. All (λ r. (r.id == x.id) ≡ false) (modify id (with_status now stop_change) ms))
        (m.id == id) (with_status now stop_change m) m (λ _. marked-apart m.id ms k.0)
        (λ _. marked-apart m.id ms k.0),
    marked-IsKeyed ms k.1,
  )

pub mark_stopping-done :
    (now : ℕ) (db : Tables) (uid : String) (s : MeetingSession) (m : Meeting)
    → find_session uid db.sessions ≡ some s
    → find_row (λ x. x.id == s.meeting_id) db.meetings ≡ some m
    → is_indexed (modify m.id (with_status now stop_change) db.meetings) ≡ true
    → mark_stopping now db (some uid)
      ≡ Result.ok (record db { meetings = modify m.id (with_status now stop_change) db.meetings })
unfolding mark_stopping update_meeting_status change_row save_rows
mark_stopping-done now db uid s m known found ix =
    ap (λ o. tables_of (change_session now db stop_change o)) known
    ∙ ap (λ o. tables_of (change_row now db stop_change o)) found
    ∙ ap
        (λ b. tables_of (
          with_row (
            if b
            then Result.ok (
              record db { meetings = modify m.id (with_status now stop_change) db.meetings },
              with_status now stop_change m,
            )
            else Result.raised SpawnError.integrity_error)))
        ix

module _ (now : ℕ) (db : Tables) (user : ℕ) (platform native : String) (m : Meeting)
    (ix : is_indexed db.meetings ≡ true) (k : IsKeyed db.meetings)
    (found : find_last (active_link user platform native) db.meetings ≡ some m) where
  active-ends : (r : Meeting) → active_link user platform native r ≡ true → is_terminal r ≡ false
  unfolding active_link is_active is_terminal
  active-ends r h = ground (arith, h, active-IsApart r.status)

  unfoldable pub marked_rows : List Meeting
  marked_rows = modify m.id (with_status now stop_change) db.meetings

  pub marked-IsIndexed : is_indexed marked_rows ≡ true
  unfolding marked_rows is_terminal one_of
  marked-IsIndexed =
      is_indexed-modify m.id (with_status now stop_change) (λ _. refl) (λ _. refl) (λ _. refl)
        (λ _. refl) db.meetings
        (found-Open (active_link user platform native) db.meetings m active-ends k found)
      ∙ ix

pub idle-none :
    (p : Meeting → Bool) (ms : List Meeting) → any_row p ms ≡ false → find_last p ms ≡ none
unfolding any_row find_last
idle-none p [] h = refl
idle-none p (m ∷ ms) h = ground (arith, h, idle-none p ms)
