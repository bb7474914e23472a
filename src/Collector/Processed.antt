-- ===== src/Collector/Processed.antt =====
-- collector/db_writer.py: the drain of a meeting's processed notes into the durable view, and the
-- parking of meetings whose stream has not ended. An entry of the stream is what its fields decode to:
-- whether its type is view_end, its params and its note, each none where it is missing or no JSON
-- object. The sink is a port whose merge may raise; the reads of Redis do not. Times are seconds.
pub mod Parking
use meeting_bot_service.Prelude.{
  ℕ, ◌+◌, ◌*◌, Bool, true, false, not, ◌&&◌, ◌||◌, ◌==◌, String, Option, none, some, List, [], ◌∷◌,
  ◌++◌, length, is_nil, leb, if◌then◌else◌,
}
use meeting_bot_service.Collector.Retention.{StreamId, id_ltb, id_eq}

pub record Entry : Type 0 where
  pub id : StreamId
  pub is_end : Bool
  pub params : Option String
  pub note : Option String

-- XRANGE from the cursor, exclusive
abbrev pub is_past : Option StreamId → StreamId → Bool
is_past none x = true
is_past (some c) x = id_ltb c x

unfoldable pub rows_after : Option StreamId → List Entry → List Entry
rows_after c [] = []
rows_after c (e ∷ es) = let rest = rows_after c es in if is_past c e.id then e ∷ rest else rest

abbrev pub later_entry : Entry → Option Entry → Entry
later_entry e none = e
later_entry e (some later) = later

-- the last entry, as XREVRANGE with a count of one gives it
unfoldable pub last_entry : List Entry → Option Entry
last_entry [] = none
last_entry (e ∷ es) = some (later_entry e (last_entry es))

abbrev pub with_note : Option String → List String → List String
with_note none ns = ns
with_note (some n) ns = n ∷ ns

unfoldable pub notes_of : List Entry → List String
notes_of [] = []
notes_of (e ∷ es) = with_note e.note (notes_of es)

abbrev pub or_params : Option String → Option String → Option String
or_params none o = o
or_params (some p) o = some p

-- the params of the last entry that has some
unfoldable pub params_of : List Entry → Option String
params_of [] = none
params_of (e ∷ es) = or_params (params_of es) e.params

-- the cursor is at this id
abbrev pub is_at : Option StreamId → StreamId → Bool
is_at none x = false
is_at (some c) x = id_eq c x

-- a meeting in processed_pending with its deadline
pub record Parked : Type 0 where
  pub meeting_id : ℕ
  pub deadline : ℕ

abbrev pub counted {ℓ} : {W : Type ℓ} → ℕ → Option W → Option (W × ℕ)
counted n none = none
counted n (some w) = some (w, n)

module _ {ℓ} {W : Type ℓ} (view_cursor : W → ℕ → Option StreamId)
    (merge : W → ℕ → List String → StreamId → Option String → Option W) where
  -- the merge of the rows, the last of which is given
  unfoldable pub merge_rows : W → ℕ → Option StreamId → List Entry → Option Entry → Option (W × ℕ)
  merge_rows w meeting c rows none = some (w, 0)
  merge_rows w meeting c rows (some e) =
      if not (is_nil (notes_of rows)) || not (is_at c e.id)
      then counted (length (notes_of rows)) (merge w meeting (notes_of rows) e.id (params_of rows))
      else some (w, 0)

  -- flush_meeting_processed: the sink after it and the notes merged; none is an exception of the sink
  unfoldable pub flush_meeting_processed : W → ℕ → List Entry → Option (W × ℕ)
  flush_meeting_processed w meeting entries =
      let rows = rows_after (view_cursor w meeting) entries in
      merge_rows w meeting (view_cursor w meeting) rows (last_entry rows)

  abbrev pub is_marked_at : Option StreamId → Option Entry → Bool
  is_marked_at c none = false
  is_marked_at c (some e) = e.is_end && is_at c e.id

  -- _processed_complete
  unfoldable pub processed_complete : W → ℕ → List Entry → Bool
  processed_complete w meeting entries = is_marked_at (view_cursor w meeting) (last_entry entries)

  -- the sink after a parked meeting was drained, and whether the meeting stays parked
  unfoldable pub settle_parked : W → ℕ → Parked → List Entry → Option (W × ℕ) → W × Bool
  settle_parked w now p entries none = (w, true)
  settle_parked w now p entries (some (w', n)) =
      (w', not (processed_complete w' p.meeting_id entries || leb p.deadline now))

  unfoldable pub visit_parked : W → ℕ → Parked → List Entry → W × Bool
  visit_parked w now p entries =
      settle_parked w now p entries (flush_meeting_processed w p.meeting_id entries)

  abbrev pub keep_if : Bool → Parked → List Parked → List Parked
  keep_if b p ps = if b then p ∷ ps else ps

  -- the pass of db_writer_tick over processed_pending
  unfoldable pub visit_pending : W → ℕ → (ℕ → List Entry) → List Parked → W × List Parked
  visit_pending w now streams [] = (w, [])
  visit_pending w now streams (p ∷ ps) =
      let (w', stays) = visit_parked w now p (streams p.meeting_id) in
      let (w'', kept) = visit_pending w' now streams ps in (w'', keep_if stays p kept)

-- ZADD
unfoldable pub park : ℕ → ℕ → List Parked → List Parked
park meeting deadline [] = (record { meeting_id = meeting; deadline = deadline }) ∷ []
park meeting deadline (p ∷ ps) =
    let rest = park meeting deadline ps in
    if p.meeting_id == meeting then record p { deadline = deadline } ∷ ps else p ∷ rest

-- finalize_meeting, once the segments are flushed: none is an exception of the sink
unfoldable pub finalize_processed {ℓ} :
    {W : Type ℓ}
    → (W → ℕ → Option StreamId)
    → (W → ℕ → List String → StreamId → Option String → Option W)
    → W
    → ℕ
    → ℕ
    → ℕ
    → List Entry
    → List Parked
    → Option (W × List Parked)
finalize_processed view_cursor merge w now grace meeting entries ps =
    elim (flush_meeting_processed view_cursor merge w meeting entries) [
      | none ↦ none
      | some (w', n) ↦ some (
        w',
        if processed_complete view_cursor merge w' meeting entries
            then ps
            else park meeting (now + grace) ps,
      )
    ]
