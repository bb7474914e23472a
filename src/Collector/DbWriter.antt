-- ===== src/Collector/DbWriter.antt =====
-- collector/db_writer.py: `flush_meeting_segments`, for one meeting. A value of the Redis hash is the
-- text of a JSON object; `decode` stands for json.loads and the parse of updated_at, none where the
-- text is no JSON. `is_blank` is whether str.strip leaves nothing. Times are milliseconds. The Redis
-- commands do not raise; the sink, the port of the durable store, may.
pub mod Completion
pub mod Durability
use meeting_bot_service.Prelude.{
  ℕ, suc, ◌+◌, Bool, true, false, ◌&&◌, ◌||◌, not, String, Option, none, some, List, [], ◌∷◌, Dict,
  get, remove, length, leb, ltb, is_nil, str_eq, if◌then◌else◌,
}

pub record Segment : Type 0 where
  pub segment_id : String
  pub text : String
  pub updated_at : Option ℕ
  pub rest : String

-- the live hash of the meeting, whether its id is in active_meetings, and whether an expiry was set
pub record LiveHash : Type 0 where
  pub fields : Dict String
  pub active : Bool
  pub rearmed : Bool

-- what becomes of a field of the hash
pub data FieldFate : Type 0 where
  keep : FieldFate
  discard : FieldFate
  flush : Segment → FieldFate

-- `updated_at is not None and updated_at >= cutoff`
unfoldable pub is_fresh : ℕ → ℕ → Option ℕ → Bool
is_fresh threshold now none = false
is_fresh threshold now (some t) = leb now (t + threshold)

-- the hash field is the identity of a segment without one
unfoldable pub identified : String → Segment → Segment
identified field seg = if str_eq seg.segment_id "" then record seg { segment_id = field } else seg

-- `batch` and `done_fields`
abbrev pub take_in : FieldFate → String → List Segment × List String → List Segment × List String
take_in FieldFate.keep field (batch, done) = (batch, done)
take_in FieldFate.discard field (batch, done) = (batch, field ∷ done)
take_in (FieldFate.flush seg) field (batch, done) = (seg ∷ batch, field ∷ done)

module _ (decode : String → Option Segment) (is_blank : String → Bool) where
  -- the body of the loop over the fields
  unfoldable pub field_fate : ℕ → ℕ → String → String → FieldFate
  unfolding is_fresh identified
  field_fate threshold now field value = elim (decode value) [
    | none ↦ FieldFate.discard
    | some seg ↦
        if ltb 0 threshold && is_fresh threshold now seg.updated_at
        then FieldFate.keep
        else if is_blank seg.text
        then FieldFate.discard
        else FieldFate.flush (identified field seg)
  ]

  -- the loop
  unfoldable pub scan : ℕ → ℕ → Dict String → List Segment × List String
  unfolding field_fate
  scan threshold now [] = ([], [])
  scan threshold now ((field, value) ∷ d) =
      take_in (field_fate threshold now field value) field (scan threshold now d)

-- redis HDEL
unfoldable pub hdel : Dict String → List String → Dict String
hdel d [] = d
hdel d (k ∷ ks) = hdel (remove d k) ks

-- HDEL of the done fields, and SREM once the hash is empty
unfoldable pub trim : LiveHash → List String → LiveHash
unfolding hdel
trim h done =
    let fields = hdel h.fields done in
    record h { fields = fields; active = h.active && not (is_nil fields) }

module _ {ℓ} {W : Type ℓ} (upsert_segments : W → List Segment → W × Bool)
    (decode : String → Option Segment) (is_blank : String → Bool) where
  -- the durable write first, and a trim only where it is confirmed; none is the sink's exception
  unfoldable pub write : W → LiveHash → List Segment → List String → W × LiveHash × Option ℕ
  unfolding trim
  write sink h [] done = (sink, trim h done, some 0)
  write sink h (seg ∷ batch) done =
      let (sink', confirmed) = upsert_segments sink (seg ∷ batch) in
      if confirmed
      then (sink', trim h done, some (length (seg ∷ batch)))
      else (sink', record h { rearmed = true }, none)

  unfoldable pub flush_meeting_segments : W → LiveHash → ℕ → ℕ → W × LiveHash × Option ℕ
  unfolding scan write
  flush_meeting_segments sink h threshold now =
      if is_nil h.fields
      then (sink, record h { active = false }, some 0)
      else (let (batch, done) = scan decode is_blank threshold now h.fields in
          write sink h batch done)
