-- ===== src/Collector/Processed/Parking.antt =====
-- A parked meeting is drained until its stream has ended, or its deadline is past.
use mathlib.Core.Path.{subst}
use meeting_bot_service.Prelude.{
  ℕ, ◌≡◌, refl, sym, ap, ◌∙◌, Bool, true, false, not, ◌||◌, String, Option, none, some, List, [],
  ◌∷◌, length, is_nil, leb, All, arith, Bool-cases, inl, inr, if_split,
}
use meeting_bot_service.Collector.Retention.{StreamId, id_ltb, id_eq}
use meeting_bot_service.Collector.Processed.{
  Entry, is_past, rows_after, later_entry, last_entry, notes_of, params_of, is_at, Parked, counted,
  merge_rows, flush_meeting_processed, is_marked_at, processed_complete, settle_parked,
  visit_parked,
}

-- the ids of the stream ascend
abbrev pub IsAscending : List Entry → Type 0
IsAscending [] = Unit
IsAscending (e ∷ es) = All (λ x. id_ltb e.id x.id ≡ true) es × IsAscending es

-- the stream has ended
abbrev pub is_ended : Option Entry → Bool
is_ended none = false
is_ended (some e) = e.is_end

-- the cursor is not past the last entry
abbrev pub is_within : Option StreamId → Option Entry → Bool
is_within none o = true
is_within (some c) none = true
is_within (some c) (some e) = not (id_ltb e.id c)

abbrev or_entry : Entry → Option Entry → Entry
or_entry e none = e
or_entry e (some x) = x

some-injective : {x y : Entry} → some x ≡ some y → x ≡ y
some-injective {x} h = ap (or_entry x) h

last-All :
    (c : Entry) (es : List Entry) (e : Entry)
    → All (λ x. id_ltb c.id x.id ≡ true) es
    → last_entry es ≡ some e
    → id_ltb c.id e.id ≡ true
unfolding last_entry
last-All c [] e h l = ground (arith, l)
last-All c (x ∷ []) e h l = subst (λ y. id_ltb c.id y.id ≡ true) (some-injective l) h.0
last-All c (x ∷ y ∷ es) e h l = last-All c (y ∷ es) e h.1 l

rows-last :
    (c : Option StreamId) (es : List Entry) (e : Entry)
    → last_entry es ≡ some e
    → is_past c e.id ≡ true
    → last_entry (rows_after c es) ≡ some e
unfolding last_entry rows_after
rows-last c [] e l h = ground (arith, l)
rows-last c (x ∷ []) e l h =
    let own : is_past c x.id ≡ true = ap (λ y. is_past c y.id) (some-injective l) ∙ h in rw own l
rows-last c (x ∷ y ∷ es) e l h =
    let rest = rows-last c (y ∷ es) e l h in
    if_split (λ rows. last_entry rows ≡ some e) (is_past c x.id) (x ∷ rows_after c (y ∷ es))
      (rows_after c (y ∷ es)) (λ _. ap (λ o. some (later_entry x o)) rest) (λ _. rest)

-- where the cursor is at the last entry, or past it, there are no rows
rows_none :
    (c : StreamId) (es : List Entry) (e : Entry)
    → IsAscending es
    → last_entry es ≡ some e
    → id_ltb c e.id ≡ false
    → rows_after (some c) es ≡ []
unfolding last_entry rows_after
rows_none c [] e asc l h = refl
rows_none c (x ∷ []) e asc l h =
    let own : id_ltb c x.id ≡ false = ap (λ y. id_ltb c y.id) (some-injective l) ∙ h in rw own refl
rows_none c (x ∷ y ∷ es) e asc l h =
    let past = last-All x (y ∷ es) e asc.0 l in
    let own : id_ltb c x.id ≡ false = ground (arith, past, h) in
    rw own (rows_none c (y ∷ es) e asc.1 l h)

id_eq_refl : (x : StreamId) → id_eq x x ≡ true
id_eq_refl x = ground arith

reached_at : (c x : StreamId) → id_ltb c x ≡ false → not (id_ltb x c) ≡ true → id_eq c x ≡ true
reached_at c x h k = ground (arith, h, k)

past_apart : (c : Option StreamId) (x : StreamId) → is_past c x ≡ true → is_at c x ≡ false
past_apart none x h = refl
past_apart (some c) x h = ground (arith, h)

abbrev sink_of {ℓ} : {W : Type ℓ} → Option (W × ℕ) → Option W
sink_of none = none
sink_of (some (w, n)) = some w

abbrev sink_or {ℓ} : {W : Type ℓ} → W → Option (W × ℕ) → W
sink_or w none = w
sink_or w (some (v, n)) = v

counted-some {ℓ} :
    {W : Type ℓ} (n m : ℕ) (o : Option W) (w : W) → counted n o ≡ some (w, m) → o ≡ some w
counted-some n m none w h = ground (arith, h)
counted-some n m (some v) w h = ap sink_of h

module _ {ℓ} {W : Type ℓ} (view_cursor : W → ℕ → Option StreamId)
    (merge : W → ℕ → List String → StreamId → Option String → Option W)
    (lawful : (w w' : W) (meeting : ℕ) (notes : List String) (c : StreamId) (params : Option String)
      → merge w meeting notes c params ≡ some w'
      → view_cursor w' meeting ≡ some c) where
  merge_reaches :
      (w w' : W) (meeting n : ℕ) (c : Option StreamId) (rows : List Entry) (e : Entry)
      → is_at c e.id ≡ false
      → merge_rows view_cursor merge w meeting c rows (some e) ≡ some (w', n)
      → is_at (view_cursor w' meeting) e.id ≡ true
  unfolding merge_rows
  merge_reaches w w' meeting n c rows e apart done =
      let run : (not (is_nil (notes_of rows)) || not (is_at c e.id)) ≡ true =
        ground (arith, apart) in
      let merged =
        counted-some (length (notes_of rows)) n
          (merge w meeting (notes_of rows) e.id (params_of rows)) w' (rw run at done) in
      ap (λ o. is_at o e.id) (lawful w w' meeting (notes_of rows) e.id (params_of rows) merged)
      ∙ id_eq_refl e.id

  flush_reaches :
      (w w' : W) (meeting n : ℕ) (es : List Entry) (e : Entry) (c : Option StreamId)
      → IsAscending es
      → last_entry es ≡ some e
      → view_cursor w meeting ≡ c
      → is_within c (some e) ≡ true
      → merge_rows view_cursor merge w meeting c (rows_after c es) (last_entry (rows_after c es))
        ≡ some (w', n)
      → is_at (view_cursor w' meeting) e.id ≡ true
  unfolding merge_rows last_entry
  flush_reaches w w' meeting n es e none asc last at_c within done =
      merge_reaches w w' meeting n none (rows_after none es) e refl (
        ap (merge_rows view_cursor merge w meeting none (rows_after none es))
          (sym (rows-last none es e last refl))
        ∙ done)
  flush_reaches w w' meeting n es e (some c) asc last at_c within done =
      elim (Bool-cases (id_ltb c e.id)) [
        | inl past ↦
            merge_reaches w w' meeting n (some c) (rows_after (some c) es) e
              (past_apart (some c) e.id past)
              (ap (merge_rows view_cursor merge w meeting (some c) (rows_after (some c) es))
                  (sym (rows-last (some c) es e last past))
                ∙ done)
        | inr reached ↦
            let rows = rows_none c es e asc last reached in
            let still : w ≡ w' = ap (sink_or w) (
              ap (λ rs. merge_rows view_cursor merge w meeting (some c) rs (last_entry rs))
                (sym rows)
              ∙ done) in
            ap (λ v. is_at (view_cursor v meeting) e.id) (sym still)
            ∙ ap (λ o. is_at o e.id) at_c
            ∙ reached_at c e.id reached within
      ]

  -- A parked meeting is let go exactly where its stream has ended or its deadline is past. Where the merge
  -- of the sink moves the cursor to the id that it is given, the ids of the stream ascend and the cursor is
  -- not past its last entry: a visit that does not raise drains the stream, and the meeting stays parked
  -- exactly if the last entry is no view_end and the deadline is to come.
  pub visit_settles :
      (w w' : W) (now n : ℕ) (p : Parked) (es : List Entry) (e : Entry)
      → IsAscending es
      → last_entry es ≡ some e
      → is_within (view_cursor w p.meeting_id) (some e) ≡ true
      → flush_meeting_processed view_cursor merge w p.meeting_id es ≡ some (w', n)
      → (is_at (view_cursor w' p.meeting_id) e.id ≡ true)
        × (visit_parked view_cursor merge w now p es ≡ (w', not (e.is_end || leb p.deadline now)))
  unfolding visit_parked settle_parked processed_complete flush_meeting_processed
  visit_settles w w' now n p es e asc last within done =
      let reached =
        flush_reaches w w' p.meeting_id n es e (view_cursor w p.meeting_id) asc last refl within
          done in
      let marked : is_marked_at view_cursor merge (view_cursor w' p.meeting_id) (last_entry es)
          ≡ e.is_end =
        ap (is_marked_at view_cursor merge (view_cursor w' p.meeting_id)) last
        ∙ ground (arith, reached) in
      (
        reached,
        ap (settle_parked view_cursor merge w now p es) done
            ∙ ap (λ b. (w', not (b || leb p.deadline now))) marked,
      )
