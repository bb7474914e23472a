-- ===== src/Tests/CollectorRuns.antt =====
-- The theorems on collector/db_writer.py, for a hash with a settled segment, one that may change
-- still, and a field that is no JSON.
use meeting_bot_service.Prelude.{
  Bool, true, false, String, Option, none, some, List, [], ◌∷◌, ◌++◌, ◌≡◌, refl, str_eq, get,
  remove, if◌then◌else◌,
}
use meeting_bot_service.Collector.DbWriter.{
  Segment, LiveHash, field_fate, identified, is_fresh, scan, hdel, trim, write,
  flush_meeting_segments,
}
use meeting_bot_service.Collector.DbWriter.Durability.{IsAccounted, flush_lossless}

abbrev settled_segment : Segment
settled_segment = record { segment_id = "s1"; text = "hello"; updated_at = some 100; rest = "" }

abbrev last_segment : Segment
last_segment = record { segment_id = ""; text = "well"; updated_at = some 95000; rest = "" }

abbrev decode : String → Option Segment
decode s =
    if str_eq s "{hello}"
    then some settled_segment
    else if str_eq s "{well}"
    then some last_segment
    else none

abbrev upsert : List Segment → List Segment → List Segment × Bool
upsert stored batch = (stored ++ batch, true)

abbrev live : LiveHash
live = record {
  fields = ("s1", "{hello}") ∷ ("s2", "{well}") ∷ ("s3", "oops") ∷ [];
  active = true;
  rearmed = false;
}

flushed_once :
    flush_meeting_segments upsert decode (str_eq "") [] live 30000 100000
    ≡ (settled_segment ∷ [], record live { fields = ("s2", "{well}") ∷ [] }, some 1)
unfolding flush_meeting_segments scan field_fate is_fresh identified write trim hdel remove
flushed_once = refl

flush_lossless_example :
    IsAccounted upsert decode
      (str_eq "")
      "s1"
      "{hello}"
      []
      (flush_meeting_segments upsert decode (str_eq "") [] live 30000 100000).1.fields
      (flush_meeting_segments upsert decode (str_eq "") [] live 30000 100000).0
unfolding get
flush_lossless_example =
    flush_lossless upsert decode (str_eq "") [] live 30000 100000 "s1" "{hello}"
      (refl, (refl, (refl, tt))) refl
