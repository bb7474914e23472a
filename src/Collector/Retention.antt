-- ===== src/Collector/Retention.antt =====
-- collector/db_writer.py: `_trim_segments_stream`, over the stream of segments and its consumer group. An
-- id of the stream is a pair of milliseconds and a sequence number. XTRIM is a parameter: it may remove
-- entries below the id that it is given, and, as it is asked to approximate, need not remove all of them.
-- What other clients do to the stream is a step: an entry is added, delivered to the group, or
-- acknowledged.
pub mod Unread
use meeting_bot_service.Prelude.{
  ℕ, suc, ◌+◌, ◌-◌, ◌*◌, Bool, true, false, not, ◌&&◌, ◌||◌, ◌==◌, ◌≡◌, Option, none, some, List,
  [], ◌∷◌, ◌++◌, ltb, if◌then◌else◌,
}

abbrev pub StreamId : Type 0
StreamId = ℕ × ℕ

-- the order of ids
abbrev pub id_ltb : StreamId → StreamId → Bool
id_ltb (a, b) (c, d) = ltb a c || a == c && ltb b d

abbrev pub id_eq : StreamId → StreamId → Bool
id_eq (a, b) (c, d) = a == c && b == d

-- min(a, b)
abbrev pub min_id : StreamId → StreamId → StreamId
min_id a b = if id_ltb b a then b else a

unfoldable pub has_id : StreamId → List StreamId → Bool
has_id x [] = false
has_id x (y ∷ ys) = id_eq y x || has_id x ys

pub record Stream : Type 0 where
  pub entries : List StreamId
  -- the consumer group: the last id delivered, and the ids delivered and not acknowledged
  pub last_delivered : StreamId
  pub pending : List StreamId

-- `min` of the XPENDING summary
abbrev pub sooner : StreamId → Option StreamId → StreamId
sooner x none = x
sooner x (some y) = min_id x y

unfoldable pub oldest_pending : List StreamId → Option StreamId
oldest_pending [] = none
oldest_pending (x ∷ xs) = some (sooner x (oldest_pending xs))

-- the id that keeps what is younger than the retention
abbrev pub time_floor : ℕ → ℕ → StreamId
time_floor retention_s now_ms = (now_ms - retention_s * 1000, 0)

abbrev pub lowered : StreamId → Option StreamId → StreamId
lowered floor none = floor
lowered floor (some x) = min_id floor x

abbrev pub next_id : Option StreamId → Option StreamId
next_id none = none
next_id (some (ms, seq)) = some (ms, suc seq)

-- the floor, from what XPENDING and XINFO GROUPS have answered
unfoldable pub floor_of : ℕ → ℕ → Option StreamId → Option StreamId → StreamId
floor_of retention_s now_ms pending last =
    lowered (lowered (time_floor retention_s now_ms) pending) (next_id last)

module _ (xtrim : StreamId → List StreamId → List StreamId) where
  -- _trim_segments_stream on the entries, where none is an exception of one of the two reads
  unfoldable pub trim_segments_stream :
      ℕ → ℕ → Option (Option StreamId × Option StreamId) → List StreamId → List StreamId
  trim_segments_stream retention_s now_ms none entries = entries
  trim_segments_stream retention_s now_ms (some (pending, last)) entries =
      xtrim (floor_of retention_s now_ms pending last) entries

-- XACK
unfoldable pub without : StreamId → List StreamId → List StreamId
without x [] = []
without x (y ∷ ys) = let rest = without x ys in if id_eq y x then rest else y ∷ rest

abbrev pub after_add : Stream → StreamId → Stream
after_add s x = record s { entries = s.entries ++ x ∷ [] }

abbrev pub after_delivery : Stream → StreamId → Stream
after_delivery s x = record s { last_delivered = x; pending = s.pending ++ x ∷ [] }

abbrev pub after_ack : Stream → StreamId → Stream
after_ack s x = record s { pending = without x s.pending }

-- a step of another client, and any number of them; a delivery is past the last one
pub data Step : Stream → Stream → Type 0 where
  added : (s : Stream) (x : StreamId) → Step s (after_add s x)
  delivered :
      (s : Stream) (x : StreamId) → id_ltb s.last_delivered x ≡ true → Step s (after_delivery s x)
  acked : (s : Stream) (x : StreamId) → Step s (after_ack s x)

pub data Later : Stream → Stream → Type 0 where
  now : (s : Stream) → Later s s
  after : (s t u : Stream) → Step s t → Later t u → Later s u
