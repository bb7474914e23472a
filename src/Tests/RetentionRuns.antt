-- ===== src/Tests/RetentionRuns.antt =====
-- The theorems on the trim of the stream, for an entry of two hours ago that is delivered while the trim
-- reads, and on the parking of a meeting whose stream has ended.
use meeting_bot_service.Collector.Processed.{
  Entry, rows_after, last_entry, notes_of, is_at, Parked, merge_rows, flush_meeting_processed,
  visit_parked,
}
use meeting_bot_service.Collector.Processed.Parking.{visit_settles}
use meeting_bot_service.Prelude.{
  ℕ, ◌≡◌, refl, sym, ap, true, false, not, ◌||◌, leb, if◌then◌else◌, arith, String, Option, none,
  some, List, [], ◌∷◌,
}
use meeting_bot_service.Collector.Retention.{
  StreamId, id_ltb, Stream, has_id, floor_of, oldest_pending, trim_segments_stream, delivered, now,
  after, after_delivery,
}
use meeting_bot_service.Collector.Retention.Unread.{
  is_unread, IsTrim, IsExact, trim_keeps_unread, late_read_trims,
}

-- an exact trim
abbrev trimmed : StreamId → List StreamId → List StreamId
trimmed floor [] = []
trimmed floor (x ∷ xs) = let rest = trimmed floor xs in if id_ltb x floor then rest else x ∷ rest

trimmed-IsTrim : IsTrim trimmed
unfolding has_id
trimmed-IsTrim x floor [] h = refl
trimmed-IsTrim x floor (y ∷ xs) h = ground (arith, h, trimmed-IsTrim x floor xs h)

trimmed-IsExact : IsExact trimmed
unfolding has_id
trimmed-IsExact x floor [] h = refl
trimmed-IsExact x floor (y ∷ xs) h = ground (arith, h, trimmed-IsExact x floor xs h)

-- two entries, the first of which has been read
abbrev stream : Stream
stream = record { entries = (1000, 0) ∷ (2000, 0) ∷ []; last_delivered = (1000, 0); pending = [] }

trim_keeps_unread_example :
    has_id
      (2000, 0)
      (trim_segments_stream trimmed 3600 7200000
        (some (oldest_pending stream.pending, some (1000, 0)))
        stream.entries)
    ≡ has_id (2000, 0) stream.entries
unfolding is_unread has_id
trim_keeps_unread_example =
    trim_keeps_unread trimmed trimmed-IsTrim 3600 7200000 stream (after_delivery stream (2000, 0))
      (2000, 0)
      (after stream (after_delivery stream (2000, 0)) (after_delivery stream (2000, 0))
        (delivered stream (2000, 0) refl) (now (after_delivery stream (2000, 0))))
      refl

late_read_trims_example :
    (is_unread (after_delivery stream (2000, 0)) (2000, 0) ≡ true)
    × (id_ltb (2000, 0) (floor_of 3600 7200000 (oldest_pending stream.pending) (some (2000, 0)))
        ≡ true)
    × (has_id
          (2000, 0)
          (trim_segments_stream trimmed 3600 7200000
            (some (oldest_pending stream.pending, some (2000, 0)))
            stream.entries)
        ≡ false)
late_read_trims_example =
    late_read_trims trimmed trimmed-IsExact 3600 7200000 stream (2000, 0) refl
      (delivered stream (2000, 0) refl) refl

-- a view that holds its cursor only
abbrev moved :
    Option StreamId → ℕ → List String → StreamId → Option String → Option (Option StreamId)
moved w meeting notes c params = some (some c)

abbrev cursor : Option StreamId → ℕ → Option StreamId
cursor w meeting = w

abbrev flat : Option (Option StreamId) → Option StreamId
flat none = none
flat (some w) = w

abbrev note : Entry
note = record { id = (1000, 0); is_end = false; params = none; note = some "hello" }

abbrev marker : Entry
marker = record { id = (2000, 0); is_end = true; params = none; note = none }

abbrev parked : Parked
parked = record { meeting_id = 7; deadline = 120 }

visit_settles_example :
    (is_at (cursor (some (2000, 0)) 7) (2000, 0) ≡ true)
    × (visit_parked cursor moved none 60 parked (note ∷ marker ∷ [])
        ≡ (some (2000, 0), not (true || leb 120 60)))
unfolding flush_meeting_processed merge_rows rows_after last_entry notes_of
visit_settles_example =
    visit_settles cursor moved (λ w w' meeting notes c params h. sym (ap flat h)) none
      (some (2000, 0)) 60 1 parked (note ∷ marker ∷ []) marker ((refl, tt), (tt, tt)) refl refl refl
