-- ===== src/Spawn/Rows/Links.antt =====
-- One open meeting for each link: the dedup query, the claim and the index together.
use mathlib.Core.Path.{subst}
use meeting_bot_service.Prelude.{
  ℕ, suc, ◌≡◌, refl, sym, ap, ◌∙◌, Bool, true, false, not, String, none, some, List, [], ◌∷◌, ◌++◌,
  Dict, eq_refl, Bool-cases, Option-cases, ◌⊎◌, inl, inr, arith, one_of,
}
use meeting_bot_service.Spawn.Rows.{
  Meeting, Tables, Result, SpawnError, has_link, is_active, is_terminal, is_indexed, find_row,
  find_last, modify, save_rows,
}
use meeting_bot_service.Spawn.Guarded.{
  claimed, fresh_row, insert_row, claim_or_insert, create_meeting_guarded,
}
use meeting_bot_service.Spawn.Rows.Cap.{IsKeyed}
use meeting_bot_service.Spawn.Rows.Index.{
  find_row-none, any_row, find_row-some, find_last-none, find_last-some, any_row_mono, planned_open,
  open_link, planned_link, active_link, blocks, active-blocks, any_row-split, planned_alone,
  is_indexed-append,
}
use meeting_bot_service.Spawn.Rows.Updates.{is_indexed-modify, found-Open}

module _ (user : ℕ) (platform native : String) where
  planned-ends : (m : Meeting) → planned_link user platform native m ≡ true → is_terminal m ≡ false
  unfolding planned_link
  planned-ends m h = ground (arith, h, planned_open m)

  claimed_link :
      (extra : Dict String) (r : Meeting)
      → planned_link user platform native r ≡ true
      → has_link user platform (some native) (claimed extra r) ≡ true
  unfolding planned_link has_link
  claimed_link extra r h = ground (arith, h)

  claimed_active :
      (extra : Dict String) (r : Meeting)
      → planned_link user platform native r ≡ true
      → active_link user platform native (claimed extra r) ≡ true
  unfolding planned_link active_link has_link is_active one_of
  claimed_active extra r h = ground (arith, h)

  fresh_link :
      (id : ℕ) (extra : Dict String)
      → let m = fresh_row id user platform native extra in
        (has_link user platform (some native) m ≡ true)
        × (open_link user platform native m ≡ true)
        × (active_link user platform native m ≡ true)
  unfolding open_link active_link has_link is_terminal is_active one_of
  fresh_link id extra = ground (arith, eq_refl platform, eq_refl native)

claimed_open : (extra : Dict String) (m : Meeting) → is_terminal (claimed extra m) ≡ false
unfolding is_terminal one_of
claimed_open extra m = refl

insert_refused :
    (db : Tables) (m : Meeting)
    → is_indexed (db.meetings ++ m ∷ []) ≡ false
    → insert_row db m ≡ Result.raised SpawnError.duplicate_meeting
unfolding insert_row
insert_refused db m h = rw h refl

insert_done :
    (db : Tables) (m : Meeting)
    → is_indexed (db.meetings ++ m ∷ []) ≡ true
    → insert_row db m
      ≡ Result.ok (record db { meetings = db.meetings ++ m ∷ []; next_id = suc db.next_id }, m)
unfolding insert_row
insert_done db m h = rw h refl

any_row-last :
    (p : Meeting → Bool) (ms : List Meeting) (m : Meeting)
    → p m ≡ true
    → any_row p (ms ++ m ∷ []) ≡ true
unfolding any_row
any_row-last p [] m h = ground (arith, h)
any_row-last p (r ∷ ms) m h = ground (arith, any_row-last p ms m h)

pub any_row-modify :
    (p q : Meeting → Bool) (f : Meeting → Meeting) (ms : List Meeting) (r : Meeting)
    → find_last p ms ≡ some r
    → q (f r) ≡ true
    → any_row q (modify r.id f ms) ≡ true
unfolding find_last modify any_row
any_row-modify p q f [] r e h = ground (arith, e)
any_row-modify p q f (m ∷ ms) r e h = elim (Option-cases (find_last p ms)) [
  | inr (x, later) ↦ ground (arith, any_row-modify p q f ms r (later ∙ (rw later at e)) h)
  | inl last ↦ elim (Bool-cases (p m)) [
    | inl here ↦
        let same : m ≡ r = ground (arith, rw (last, here) at e) in
        subst (λ x. any_row q (modify x.id f (m ∷ ms)) ≡ true) same
          (ground (arith, ap (λ x. q (f x)) same ∙ h))
    | inr there ↦ ground (arith, rw (last, there) at e)
  ]
]

-- what the create does once the dedup query has found nothing
abbrev pub Creates : Tables → ℕ → String → String → Result (Tables × Meeting) → Type 0
Creates db user platform native made =
    ((any_row (blocks user platform native) db.meetings ≡ true)
      × (made ≡ Result.raised SpawnError.duplicate_meeting))
    ⊎ ((any_row (blocks user platform native) db.meetings ≡ false)
        × ((db' : Tables) × (m : Meeting) × (made ≡ Result.ok (db', m))
            × (m.status ≡ "requested")
            × (has_link user platform (some native) m ≡ true)
            × (is_indexed db'.meetings ≡ true)
            × (any_row (active_link user platform native) db'.meetings ≡ true)))

module _ (db : Tables) (user : ℕ) (platform native : String) (extra : Dict String)
    (ix : is_indexed db.meetings ≡ true) where
  claim-Creates :
      (r : Meeting)
      → IsKeyed db.meetings
      → find_last (planned_link user platform native) db.meetings ≡ some r
      → Creates db user platform native (claim_or_insert db user platform native extra)
  unfolding claim_or_insert planned_link save_rows
  claim-Creates r k old =
      let (own, some_planned) =
        find_last-some (planned_link user platform native) db.meetings r old in
      let opens =
        found-Open (planned_link user platform native) db.meetings r
          (planned-ends user platform native) k old in
      let indexed =
        is_indexed-modify r.id (claimed extra) (λ _. refl) (λ _. refl) (λ _. refl)
          (claimed_open extra) db.meetings opens
        ∙ ix in
      inr (
        planned_alone user platform native db.meetings ix some_planned,
        (
          record db { meetings = modify r.id (claimed extra) db.meetings },
          claimed extra r,
          rw (claim_or_insert, old) (rw indexed refl),
          refl,
          claimed_link user platform native extra r own,
          indexed,
          any_row-modify (planned_link user platform native) (active_link user platform native)
              (claimed extra) db.meetings r old (claimed_active user platform native extra r own),
        ),
      )

  insert-Creates :
      find_last (planned_link user platform native) db.meetings ≡ none
      → Creates db user platform native (claim_or_insert db user platform native extra)
  unfolding claim_or_insert planned_link
  insert-Creates new =
      let m = fresh_row db.next_id user platform native extra in
      let own = fresh_link user platform native db.next_id extra in
      let split =
        any_row-split user platform native db.meetings
          (find_last-none (planned_link user platform native) db.meetings new) in
      let indexed = is_indexed-append user platform native db.meetings m own.1 ix in
      elim (Bool-cases (any_row (blocks user platform native) db.meetings)) [
        | inl blocked ↦ inl (
          blocked,
          rw (claim_or_insert, new) (insert_refused db m (indexed ∙ ap not (split ∙ blocked))),
        )
        | inr free ↦ inr (
          free,
          (
            record db { meetings = db.meetings ++ m ∷ []; next_id = suc db.next_id },
            m,
            rw (claim_or_insert, new) (insert_done db m (indexed ∙ ap not (split ∙ free))),
            refl,
            own.0,
            indexed ∙ ap not (split ∙ free),
            any_row-last (active_link user platform native) db.meetings m own.2,
          ),
        )
      ]

-- A guarded create without a cap, where the index holds and the ids of the rows are different: it raises
-- DuplicateMeeting exactly if the user has a row of the link whose meeting has neither ended nor is
-- only planned; else it returns a requested row of the link, and after it the index holds and the link
-- has an active row.
pub guarded_decides :
    (db : Tables) (user : ℕ) (platform native : String) (extra : Dict String)
    → is_indexed db.meetings ≡ true
    → IsKeyed db.meetings
    → Creates db user platform native (create_meeting_guarded db user platform native extra none)
unfolding active_link planned_link create_meeting_guarded claim_or_insert
guarded_decides db user platform native extra ix k =
    elim (Option-cases (find_row (active_link user platform native) db.meetings)) [
      | inr (r, dup) ↦ inl (
        any_row_mono (active_link user platform native) (blocks user platform native) db.meetings
            (active-blocks user platform native)
            (find_row-some (active_link user platform native) db.meetings r dup).1,
        rw (create_meeting_guarded, dup) refl,
      )
      | inl new ↦
          let step : create_meeting_guarded db user platform native extra none
              ≡ claim_or_insert db user platform native extra =
            rw (create_meeting_guarded, new) refl in
          subst (Creates db user platform native) (sym step)
            (elim (Option-cases (find_last (planned_link user platform native) db.meetings)) [
              | inr (r, old) ↦ claim-Creates db user platform native extra ix r k old
              | inl none_planned ↦ insert-Creates db user platform native extra ix none_planned
            ])
    ]

-- while a row of the link is active, a guarded create for it raises DuplicateMeeting
pub active_blocks :
    (db : Tables) (user : ℕ) (platform native : String) (extra : Dict String)
    → any_row (active_link user platform native) db.meetings ≡ true
    → create_meeting_guarded db user platform native extra none
      ≡ Result.raised SpawnError.duplicate_meeting
unfolding create_meeting_guarded active_link
active_blocks db user platform native extra h =
    elim (Option-cases (find_row (active_link user platform native) db.meetings)) [
      | inr (r, dup) ↦ rw (create_meeting_guarded, dup) refl
      | inl new ↦
          ground (arith, h, find_row-none (active_link user platform native) db.meetings new)
    ]
