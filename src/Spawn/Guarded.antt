-- ===== src/Spawn/Guarded.antt =====
-- bot_spawn/adapters.py: `create_meeting_guarded`, the dedup query, the cap, and the claim of a planned
-- row or the insert, in one transaction.
use meeting_bot_service.Prelude.{
  ℕ, suc, Bool, true, false, ◌&&◌, String, Option, none, some, [], ◌∷◌, ◌++◌, ℤ, pos, negsuc, Dict,
  put, ◌==◌, leb, if◌then◌else◌,
}
use meeting_bot_service.Spawn.Rows.{
  Meeting, Tables, Result, SpawnError, has_link, is_active, is_planned, is_indexed, find_row,
  find_last, modify, save_rows, count_active_bots,
}

-- `n >= cap`
abbrev pub at_cap : ℕ → Option ℤ → Bool
at_cap n none = false
at_cap n (some (pos cap)) = leb cap n
at_cap n (some (negsuc cap)) = true

-- `cap is not None and cap <= 0`
abbrev pub is_depleted : Option ℤ → Bool
is_depleted none = false
is_depleted (some (pos cap)) = cap == 0
is_depleted (some (negsuc cap)) = true

-- {**a, **b}
unfoldable pub merge : Dict String → Dict String → Dict String
merge a [] = a
merge a ((k, v) ∷ b) = merge (put a k v) b

abbrev pub claimed : Dict String → Meeting → Meeting
claimed extra m = record m {
  status = "requested";
  end_time = none;
  bot_container_id = none;
  fields = merge m.fields extra;
}

abbrev pub fresh_row : ℕ → ℕ → String → String → Dict String → Meeting
fresh_row id user platform native extra = record {
  id = id;
  user_id = user;
  platform = platform;
  native_meeting_id = some native;
  status = "requested";
  bot_container_id = none;
  start_time = none;
  end_time = none;
  fields = extra;
}

-- the insert, where the index turns into DuplicateMeeting
unfoldable pub insert_row : Tables → Meeting → Result (Tables × Meeting)
insert_row db m =
    if is_indexed (db.meetings ++ m ∷ [])
    then Result.ok (record db { meetings = db.meetings ++ m ∷ []; next_id = suc db.next_id }, m)
    else Result.raised SpawnError.duplicate_meeting

-- the claim of a planned row, or the insert
unfoldable pub claim_or_insert :
    Tables → ℕ → String → String → Dict String → Result (Tables × Meeting)
claim_or_insert db user platform native extra =
    elim (find_last (λ m. has_link user platform (some native) m && is_planned m) db.meetings) [
      | some m ↦ save_rows db (modify m.id (claimed extra) db.meetings) (claimed extra m)
      | none ↦ insert_row db (fresh_row db.next_id user platform native extra)
    ]

-- create_meeting_guarded
unfoldable pub create_meeting_guarded :
    Tables → ℕ → String → String → Dict String → Option ℤ → Result (Tables × Meeting)
create_meeting_guarded db user platform native extra cap =
    if is_depleted cap
    then Result.raised SpawnError.max_bots_exceeded
    else elim (find_row (λ m. has_link user platform (some native) m && is_active m) db.meetings) [
      | some m ↦ Result.raised SpawnError.duplicate_meeting
      | none ↦
          if at_cap (count_active_bots db user none) cap
          then Result.raised SpawnError.max_bots_exceeded
          else claim_or_insert db user platform native extra
    ]
