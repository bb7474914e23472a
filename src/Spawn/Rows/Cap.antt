-- ===== src/Spawn/Rows/Cap.antt =====
-- The cap on the active bots of a user.
use meeting_bot_service.Prelude.{
  ℕ, ◌+◌, ◌≤◌, ◌<◌, ◌≡◌, refl, ap, Bool, false, ◌&&◌, String, none, some, List, [], ◌∷◌, ◌++◌, pos,
  Dict, ◌==◌, leb, bit, All, All-map, Bool-cases, Option-cases, inl, inr, arith,
}
use meeting_bot_service.Spawn.Rows.{
  Meeting, Tables, Result, has_link, is_active, is_planned, find_row, find_last, modify, save_rows,
  reopen_meeting, reopened, counts, count_rows, count_active_bots,
}
use meeting_bot_service.Spawn.Guarded.{
  claimed, fresh_row, insert_row, claim_or_insert, create_meeting_guarded,
}

-- the ids of the rows are different
abbrev pub IsKeyed : List Meeting → Type 0
IsKeyed [] = Unit
IsKeyed (m ∷ ms) = All (λ r. (r.id == m.id) ≡ false) ms × IsKeyed ms

count_rows-append :
    (p : Meeting → Bool) (ms : List Meeting) (m : Meeting)
    → count_rows p (ms ++ m ∷ []) ≡ count_rows p ms + bit (p m)
unfolding count_rows
count_rows-append p [] m = omega arith
count_rows-append p (r ∷ ms) m = omega (arith, count_rows-append p ms m)

pub modify_absent :
    (id : ℕ) (f : Meeting → Meeting) (ms : List Meeting)
    → All (λ r. (r.id == id) ≡ false) ms
    → modify id f ms ≡ ms
unfolding modify
modify_absent id f [] h = refl
modify_absent id f (m ∷ ms) h = rw h.0 (ap (λ rs. m ∷ rs) (modify_absent id f ms h.1))

-- counting by a weaker test loses nothing
count_rows-le :
    (p q : Meeting → Bool) (ms : List Meeting)
    → All (λ r. bit (p r) ≤ bit (q r)) ms
    → count_rows p ms ≤ count_rows q ms
unfolding count_rows
count_rows-le p q [] h = omega arith
count_rows-le p q (m ∷ ms) h = omega (arith, h.0, count_rows-le p q ms h.1)

-- a change of one row adds one at most to the rows that pass p, where the others that pass p pass q
pub count_rows-modify :
    (p q : Meeting → Bool) (id : ℕ) (f : Meeting → Meeting) (ms : List Meeting)
    → IsKeyed ms
    → ((r : Meeting) → (r.id == id) ≡ false → bit (p r) ≤ bit (q r))
    → count_rows p (modify id f ms) ≤ count_rows q ms + 1
unfolding count_rows modify
count_rows-modify p q id f [] k h = omega arith
count_rows-modify p q id f (m ∷ ms) k h = elim (Bool-cases (m.id == id)) [
  | inl here ↦
      let others =
        All-map (λ r. (r.id == m.id) ≡ false) (λ r. (r.id == id) ≡ false) ms
          (λ r d. ground (arith, here, d)) k.0 in
      rw here (
        rw (modify_absent id f ms others) (
          ground (
            arith,
            count_rows-le p q ms
                (All-map (λ r. (r.id == id) ≡ false) (λ r. bit (p r) ≤ bit (q r)) ms h others),
          )))
  | inr there ↦ rw there (omega (arith, h m there, count_rows-modify p q id f ms k.1 h))
]

-- what a transaction that saves rows gives
save_rows-ok :
    (db db' : Tables) (rows : List Meeting) (m m' : Meeting)
    → save_rows db rows m ≡ Result.ok (db', m')
    → (db'.meetings ≡ rows) × (m' ≡ m)
unfolding save_rows
save_rows-ok db db' rows m m' h = ground arith

insert_row-ok :
    (db db' : Tables) (m m' : Meeting)
    → insert_row db m ≡ Result.ok (db', m')
    → (db'.meetings ≡ db.meetings ++ m ∷ []) × (m' ≡ m)
unfolding insert_row
insert_row-ok db db' m m' h = ground arith

claim_or_insert-count :
    (db db' : Tables) (user : ℕ) (platform native : String) (extra : Dict String) (m : Meeting)
    → IsKeyed db.meetings
    → claim_or_insert db user platform native extra ≡ Result.ok (db', m)
    → count_active_bots db' user none ≤ count_active_bots db user none + 1
unfolding claim_or_insert count_active_bots
claim_or_insert-count db db' user platform native extra m k h =
    elim (Option-cases
      (find_last (λ r. has_link user platform (some native) r && is_planned r) db.meetings)) [
        | inl new ↦
            let (e, _) =
              insert_row-ok db db' (fresh_row db.next_id user platform native extra) m
                (rw (new, claim_or_insert) at h) in
            ground (
              arith,
              ap (count_rows (counts user none)) e,
              count_rows-append (counts user none) db.meetings
                  (fresh_row db.next_id user platform native extra),
            )
        | inr (r, old) ↦
            let (e, _) =
              save_rows-ok db db' (modify r.id (claimed extra) db.meetings) (claimed extra r) m
                (rw (old, claim_or_insert) at h) in
            omega (
              arith,
              ap (count_rows (counts user none)) e,
              count_rows-modify (counts user none) (counts user none) r.id (claimed extra)
                  db.meetings k (λ _ _. omega arith),
            )
      ]

-- A guarded create that returns a row leaves the user with at most as many active bots as the cap.
pub guarded_cap :
    (db db' : Tables) (user cap : ℕ) (platform native : String) (extra : Dict String) (m : Meeting)
    → IsKeyed db.meetings
    → create_meeting_guarded db user platform native extra (some (pos cap)) ≡ Result.ok (db', m)
    → count_active_bots db' user none ≤ cap
unfolding create_meeting_guarded
guarded_cap db db' user cap platform native extra m k h =
    elim (Option-cases
      (find_row (λ r. has_link user platform (some native) r && is_active r) db.meetings)) [
        | inr (r, dup) ↦ ground (arith, rw (create_meeting_guarded, dup) at h)
        | inl new ↦ elim (Bool-cases (leb cap (count_active_bots db user none))) [
          | inl full ↦ ground (arith, rw (create_meeting_guarded, new, full) at h)
          | inr room ↦ elim (Bool-cases (cap == 0)) [
            | inl zero_cap ↦ ground (arith, rw (create_meeting_guarded, zero_cap) at h)
            | inr open_cap ↦
                let made = rw (create_meeting_guarded, new, room, open_cap) at h in
                ground
                  (arith, room, claim_or_insert-count db db' user platform native extra m k made)
          ]
        ]
      ]

counts_but :
    (id user : ℕ) (r : Meeting)
    → (r.id == id) ≡ false
    → bit (counts user none r) ≤ bit (counts user (some id) r)
unfolding counts
counts_but id user r other = ground (arith, other)

pub reopen_cap :
    (db db' : Tables) (user cap : ℕ) (m m' : Meeting)
    → IsKeyed db.meetings
    → count_active_bots db user (some m.id) < cap
    → reopen_meeting db m ≡ Result.ok (db', m')
    → count_active_bots db' user none ≤ cap
unfolding reopen_meeting count_active_bots
reopen_cap db db' user cap m m' k room h =
    let (e, _) = save_rows-ok db db' (modify m.id reopened db.meetings) (reopened m) m' h in
    omega (
      arith,
      room,
      ap (count_rows (counts user none)) e,
      count_rows-modify (counts user none) (counts user (some m.id)) m.id reopened db.meetings k
          (counts_but m.id user),
    )
