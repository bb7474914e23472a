-- ===== src/Collector/Retention/Unread.antt =====
-- The trim and the entries that the group has not read.
use meeting_bot_service.Prelude.{
  ℕ, Bool, true, false, ◌||◌, ◌≡◌, ap, ◌∙◌, Option, none, some, List, [], ◌∷◌, ◌++◌, arith,
  Bool-cases, inl, inr,
}
use meeting_bot_service.Collector.Retention.{
  StreamId, id_ltb, id_eq, has_id, Stream, sooner, oldest_pending, time_floor, lowered, next_id,
  floor_of, trim_segments_stream, without, after_delivery, Step, added, delivered, acked, Later,
  now, after,
}

-- the entry is delivered and not acknowledged, or not yet delivered
unfoldable pub is_unread : Stream → StreamId → Bool
is_unread s x = has_id x s.pending || id_ltb s.last_delivered x

has_id-append :
    (x y : StreamId) (xs : List StreamId) → has_id x (xs ++ y ∷ []) ≡ (has_id x xs || id_eq y x)
unfolding has_id
has_id-append x y [] = ground arith
has_id-append x y (z ∷ xs) = ground (arith, has_id-append x y xs)

has_id-without :
    (x y : StreamId) (xs : List StreamId) → has_id x (without y xs) ≡ true → has_id x xs ≡ true
unfolding has_id without
has_id-without x y [] h = h
has_id-without x y (z ∷ xs) h = ground (arith, h, has_id-without x y xs)

-- no step makes an entry unread
step_unread : (s t : Stream) (x : StreamId) → Step s t → is_unread t x ≡ true → is_unread s x ≡ true
unfolding is_unread
step_unread _ _ x (added s y) h = h
step_unread _ _ x (delivered s y past) h = ground (arith, h, past, has_id-append x y s.pending)
step_unread _ _ x (acked s y) h = ground (arith, h, has_id-without x y s.pending)

later_unread :
    (s t : Stream) (x : StreamId) → Later s t → is_unread t x ≡ true → is_unread s x ≡ true
later_unread _ _ x (now s) h = h
later_unread _ _ x (after s t u step rest) h = step_unread s t x step (later_unread t u x rest h)

-- no pending id is below the one that stands for the oldest
abbrev pub is_below : StreamId → Option StreamId → Bool
is_below x none = true
is_below x (some y) = id_ltb x y

sooner-below :
    (x z : StreamId) (o : Option StreamId)
    → id_eq z x ≡ true
    → is_below x (some (sooner z o)) ≡ false
sooner-below x z none same = ground (arith, same)
sooner-below x z (some y) same = ground (arith, same)

sooner-keeps :
    (x z : StreamId) (o : Option StreamId)
    → is_below x o ≡ false
    → is_below x (some (sooner z o)) ≡ false
sooner-keeps x z none h = ground (arith, h)
sooner-keeps x z (some y) h = ground (arith, h)

oldest_least :
    (x : StreamId) (xs : List StreamId)
    → has_id x xs ≡ true
    → is_below x (oldest_pending xs) ≡ false
unfolding has_id oldest_pending
oldest_least x [] h = ground (arith, h)
oldest_least x (z ∷ xs) h = elim (Bool-cases (id_eq z x)) [
  | inl same ↦ sooner-below x z (oldest_pending xs) same
  | inr other ↦ sooner-keeps x z (oldest_pending xs) (oldest_least x xs (ground (arith, h, other)))
]

-- what XTRIM MINID documents: the entries from the id on stay
abbrev pub IsTrim : (StreamId → List StreamId → List StreamId) → Type 0
IsTrim xtrim =
    (x floor : StreamId) (xs : List StreamId)
    → id_ltb x floor ≡ false
    → has_id x (xtrim floor xs) ≡ has_id x xs

-- XTRIM removes all that it may: what it documents of an exact trim, and allows an approximate one
abbrev pub IsExact : (StreamId → List StreamId → List StreamId) → Type 0
IsExact xtrim =
    (x floor : StreamId) (xs : List StreamId)
    → id_ltb x floor ≡ true
    → has_id x (xtrim floor xs) ≡ false

-- lowering the floor to an id that is not above x leaves x above it, and so does any lowering of one that
-- x is above
lowered-keeps :
    (x floor : StreamId) (o : Option StreamId)
    → id_ltb x floor ≡ false
    → id_ltb x (lowered floor o) ≡ false
lowered-keeps x floor none h = h
lowered-keeps x floor (some y) h = ground (arith, h)

lowered-below :
    (x floor y : StreamId) → id_ltb x y ≡ false → id_ltb x (lowered floor (some y)) ≡ false
lowered-below x floor y h = ground (arith, h)

pending_above :
    (x floor : StreamId) (o : Option StreamId)
    → is_below x o ≡ false
    → id_ltb x (lowered floor o) ≡ false
pending_above x floor none h = ground (arith, h)
pending_above x floor (some y) h = lowered-below x floor y h

next_above : (x last : StreamId) → id_ltb last x ≡ true → is_below x (next_id (some last)) ≡ false
next_above x last h = ground (arith, h)

-- what is unread when both reads are made is above the floor
unread_above :
    (retention_s now_ms : ℕ) (s : Stream) (x : StreamId)
    → is_unread s x ≡ true
    → id_ltb x (floor_of retention_s now_ms (oldest_pending s.pending) (some s.last_delivered))
      ≡ false
unfolding is_unread floor_of
unread_above retention_s now_ms s x h = elim (Bool-cases (has_id x s.pending)) [
  | inl held ↦
      lowered-keeps x (lowered (time_floor retention_s now_ms) (oldest_pending s.pending))
        (next_id (some s.last_delivered))
        (pending_above x (time_floor retention_s now_ms) (oldest_pending s.pending)
          (oldest_least x s.pending held))
  | inr free ↦
      pending_above x (lowered (time_floor retention_s now_ms) (oldest_pending s.pending))
        (next_id (some s.last_delivered)) (next_above x s.last_delivered (ground (arith, h, free)))
]

below_next :
    (x floor : StreamId)
    → id_ltb x floor ≡ true
    → id_ltb x (lowered floor (next_id (some x))) ≡ true
below_next x floor h = ground (arith, h)

module _ (xtrim : StreamId → List StreamId → List StreamId) where
  -- The trim keeps what the group has not read. Where nothing happens between the two reads, whatever
  -- other clients do between the reads and the trim, and whether XTRIM removes all the entries below
  -- the id that it is given or only some, an entry that is delivered and not acknowledged, or not
  -- delivered, when the trim is made stays in the stream, however old it is.
  pub trim_keeps_unread :
      IsTrim xtrim
      → (retention_s now_ms : ℕ) (read s : Stream) (x : StreamId) → Later read s
      → is_unread s x ≡ true
      → has_id x (
          trim_segments_stream xtrim retention_s now_ms
            (some (oldest_pending read.pending, some read.last_delivered))
            s.entries)
        ≡ has_id x s.entries
  unfolding trim_segments_stream
  trim_keeps_unread trims retention_s now_ms read s x later unread =
      trims x (floor_of retention_s now_ms (oldest_pending read.pending) (some read.last_delivered))
        s.entries (unread_above retention_s now_ms read x (later_unread read s x later unread))

  -- The two reads are not one. Where nothing is pending when XPENDING is read, and an entry older than
  -- the retention is delivered before XINFO GROUPS is read, the id that XTRIM is given is past that
  -- entry, though it is not acknowledged; and where XTRIM removes all the entries below its id, as an
  -- approximate trim may and an exact one does, the entry is lost.
  pub late_read_trims :
      IsExact xtrim
      → (retention_s now_ms : ℕ) (s : Stream) (x : StreamId) → s.pending ≡ []
      → Step s (after_delivery s x)
      → id_ltb x (time_floor retention_s now_ms) ≡ true
      → (is_unread (after_delivery s x) x ≡ true)
        × (id_ltb x (floor_of retention_s now_ms (oldest_pending s.pending) (some x)) ≡ true)
        × (has_id x (
              trim_segments_stream xtrim retention_s now_ms
                (some (oldest_pending s.pending, some (after_delivery s x).last_delivered))
                s.entries)
            ≡ false)
  unfolding is_unread trim_segments_stream floor_of oldest_pending
  late_read_trims exact retention_s now_ms s x idle step old =
      let past : id_ltb x (floor_of retention_s now_ms (oldest_pending s.pending) (some x)) ≡ true =
        ap
          (λ ps. id_ltb x (
            lowered (lowered (time_floor retention_s now_ms) (oldest_pending ps))
              (next_id (some x))))
          idle
        ∙ below_next x (time_floor retention_s now_ms) old in
      (
        ground (arith, has_id-append x x s.pending),
        past,
        exact x (floor_of retention_s now_ms (oldest_pending s.pending) (some x)) s.entries past,
      )
