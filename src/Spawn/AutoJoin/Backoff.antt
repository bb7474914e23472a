-- ===== src/Spawn/AutoJoin/Backoff.antt =====
-- A row whose join has failed waits.
use meeting_bot_service.Prelude.{
  ℕ, ◌+◌, ◌<◌, ◌≡◌, ap, ◌∙◌, true, false, not, ◌&&◌, String, none, some, List, [], ◌∷◌, get, put,
  get-put_self, str_eq, is_empty, ◌==◌, All, if_split, is_some, lt→ltb, arith, if◌then◌else◌,
}
use meeting_bot_service.Spawn.Rows.{Meeting, modify, patch, merge_meeting_data, list_scheduled}
use meeting_bot_service.Spawn.AutoJoin.{
  Settings, Sweep, parse_field, is_waiting, is_due, due_rows, error_patch, stamp_error,
}

module _ (s : Settings) (t id : ℕ) (x : Meeting) (xs : List Meeting)
    (keeps : is_due s t x ≡ true → (x.id == id) ≡ false) where
  due_cons :
      All (λ r. (r.id == id) ≡ false) (due_rows s t xs)
      → All (λ r. (r.id == id) ≡ false) (due_rows s t (x ∷ xs))
  unfolding due_rows
  due_cons rest =
      if_split (All (λ r. (r.id == id) ≡ false)) (is_due s t x) (x ∷ due_rows s t xs)
        (due_rows s t xs) (λ due. (keeps due, rest)) (λ _. rest)

listed_cons :
    (s : Settings) (t id : ℕ) (x : Meeting) (xs : List Meeting)
    → (is_due s t x ≡ true → (x.id == id) ≡ false)
    → All (λ r. (r.id == id) ≡ false) (due_rows s t (list_scheduled xs))
    → All (λ r. (r.id == id) ≡ false) (due_rows s t (list_scheduled (x ∷ xs)))
unfolding list_scheduled
listed_cons s t id x xs keeps rest =
    if_split (λ l. All (λ r. (r.id == id) ≡ false) (due_rows s t l))
      (str_eq x.status "scheduled"
        && (is_some x.native_meeting_id && not (str_eq x.platform "unknown")))
      (x ∷ list_scheduled xs) (list_scheduled xs)
      (λ _. due_cons s t id x (list_scheduled xs) keeps rest) (λ _. rest)

module _ (s : Settings) (now t : ℕ) (message : String) where
  stamped : Meeting → Meeting
  stamped m = record m { fields = patch m.fields (error_patch s now message) }

  stamped_next :
      (m : Meeting)
      → get (stamped m).fields "auto_join_next_retry" ≡ some (s.isoformat (now + s.retry_backoff_s))
  unfolding stamped patch
  stamped_next m =
      get-put_self (put m.fields "auto_join_error" message) "auto_join_next_retry"
        (s.isoformat (now + s.retry_backoff_s))

  module _
      (reads : s.parse_iso (s.isoformat (now + s.retry_backoff_s)) ≡ some (now + s.retry_backoff_s))
      (text : is_empty (s.isoformat (now + s.retry_backoff_s)) ≡ false)
      (early : t < now + s.retry_backoff_s) where
    still_waiting :
        (m : Meeting)
        → is_waiting t (parse_field s.parse_iso (get (stamped m).fields "auto_join_next_retry"))
          ≡ true
    still_waiting m =
        ap (λ o. is_waiting t (parse_field s.parse_iso o)) (stamped_next m)
        ∙ ap
            (λ b.
              is_waiting t
                (if b then none else s.parse_iso (s.isoformat (now + s.retry_backoff_s))))
            text
        ∙ ap (is_waiting t) reads
        ∙ lt→ltb t (now + s.retry_backoff_s) early

    stamped_not_due : (m : Meeting) → is_due s t (stamped m) ≡ true → ⊥
    unfolding is_due
    stamped_not_due m due = ground (arith, due, still_waiting m)

    due_others :
        (id : ℕ) (ms : List Meeting)
        → All (λ r. (r.id == id) ≡ false) (due_rows s t (list_scheduled (modify id stamped ms)))
    unfolding modify due_rows list_scheduled
    due_others id [] = tt
    due_others id (m ∷ ms) =
        let rest = modify id stamped ms in
        if_split (λ x. All (λ r. (r.id == id) ≡ false) (due_rows s t (list_scheduled (x ∷ rest))))
          (m.id == id) (stamped m) m
          (λ _.
            listed_cons s t id (stamped m) rest (λ due. absurd (stamped_not_due m due))
              (due_others id ms))
          (λ other. listed_cons s t id m rest (λ _. other) (due_others id ms))

-- After an error stamp no row with the stamped id is due before the next retry, where the standard
-- library reads back the time that it has written.
pub stamp_backs_off :
    (s : Settings) (now t : ℕ) (m : Meeting) (message : String) (w : Sweep)
    → s.parse_iso (s.isoformat (now + s.retry_backoff_s)) ≡ some (now + s.retry_backoff_s)
    → is_empty (s.isoformat (now + s.retry_backoff_s)) ≡ false
    → t < now + s.retry_backoff_s
    → All
        (λ r. (r.id == m.id) ≡ false)
        (due_rows s t (list_scheduled (stamp_error s now m message w).tables.meetings))
unfolding stamp_error merge_meeting_data stamped
stamp_backs_off s now t m message w reads text early =
    due_others s now t message reads text early m.id w.tables.meetings
