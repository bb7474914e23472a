-- ===== src/Collector/DbWriter/Durability.antt =====
-- Where the segments of a live hash are after a flush.
use mathlib.Core.Path.{subst}
use meeting_bot_service.Prelude.{
  ℕ, Bool, true, false, ◌&&◌, ◌||◌, not, String, Option, none, some, List, [], ◌∷◌, ◌≡◌, ◌≢◌, refl,
  Option-cases, sym, ◌∙◌, Dict, get, remove, get-remove, is_nil, str_eq, eq_iff, eq_refl, arith,
  Bool-cases, ◌⊎◌, inl, inr, if◌then◌else◌,
}
use meeting_bot_service.Collector.DbWriter.{
  Segment, LiveHash, FieldFate, field_fate, identified, take_in, scan, hdel, trim, write,
  flush_meeting_segments,
}

-- a hash has one value for each field
abbrev pub IsHash : Dict String → Type 0
IsHash [] = Unit
IsHash ((k, v) ∷ d) = (get d k ≡ none) × IsHash d

abbrev pub has : List String → String → Bool
has [] j = false
has (k ∷ ks) j = str_eq k j || has ks j

abbrev pub IsIn : Segment → List Segment → Type 0
IsIn seg [] = ⊥
IsIn seg (s ∷ ss) = (s ≡ seg) ⊎ IsIn seg ss

pub get-hdel :
    (d : Dict String) (ks : List String) (j : String)
    → get (hdel d ks) j ≡ (if has ks j then none else get d j)
unfolding hdel
get-hdel d [] j = refl
get-hdel d (k ∷ ks) j = get-hdel (remove d k) ks j ∙ ground (arith, get-remove d k j)

pub all_gone : (d : Dict String) → ((j : String) → get d j ≡ none) → d ≡ []
unfolding get
all_gone [] h = refl
all_gone ((k, v) ∷ d) h = ground (arith, h k, eq_refl k)

abbrev pub is_keep : FieldFate → Bool
is_keep FieldFate.keep = true
is_keep FieldFate.discard = false
is_keep (FieldFate.flush seg) = false

has-take_in :
    (x : FieldFate) (k j : String) (r : List Segment × List String)
    → has (take_in x k r).1 j ≡ (not (is_keep x) && str_eq k j || has r.1 j)
has-take_in FieldFate.keep k j r = refl
has-take_in FieldFate.discard k j r = refl
has-take_in (FieldFate.flush seg) k j r = refl

-- a segment stays in the batch
IsIn-take_in :
    (x : FieldFate) (k : String) (r : List Segment × List String) (seg : Segment)
    → (x ≡ FieldFate.flush seg) ⊎ IsIn seg r.0
    → IsIn seg (take_in x k r).0
IsIn-take_in FieldFate.keep k r seg (inl e) = ground (arith, e)
IsIn-take_in FieldFate.keep k r seg (inr h) = h
IsIn-take_in FieldFate.discard k r seg (inl e) = ground (arith, e)
IsIn-take_in FieldFate.discard k r seg (inr h) = h
IsIn-take_in (FieldFate.flush s) k r seg (inl e) = inl (ground (arith, e))
IsIn-take_in (FieldFate.flush s) k r seg (inr h) = inr h

module _ (decode : String → Option Segment) (is_blank : String → Bool) where
  -- the value is no JSON, or the text of its segment is blank
  abbrev pub IsNeverStored : String → Type 0
  IsNeverStored value =
      (decode value ≡ none)
      ⊎ ((raw : Segment) × (decode value ≡ some raw) × (is_blank raw.text ≡ true))

  -- the segment that the value of the field holds, under the name of the field if it has none
  abbrev pub IsSegmentOf : String → String → Segment → Type 0
  IsSegmentOf field value seg =
      (raw : Segment) × (decode value ≡ some raw)
      × (((raw.segment_id ≡ "") × (seg ≡ record raw { segment_id = field }))
          ⊎ ((raw.segment_id ≢ "") × (seg ≡ raw)))

  discard-IsNeverStored :
      (threshold now : ℕ) (field value : String)
      → field_fate decode is_blank threshold now field value ≡ FieldFate.discard
      → IsNeverStored value
  unfolding field_fate
  discard-IsNeverStored threshold now field value h = elim (Option-cases (decode value)) [
    | inl broken ↦ inl broken
    | inr (raw, read) ↦ inr (raw, read, ground (arith, h, read))
  ]

  flush-IsSegmentOf :
      (threshold now : ℕ) (field value : String) (seg : Segment)
      → field_fate decode is_blank threshold now field value ≡ FieldFate.flush seg
      → IsSegmentOf field value seg
  unfolding field_fate identified
  flush-IsSegmentOf threshold now field value seg h = elim (Option-cases (decode value)) [
    | inl broken ↦ absurd (ground (arith, h, broken))
    | inr (raw, read) ↦ (
      raw,
      read,
      elim (Bool-cases (str_eq raw.segment_id "")) [
        | inl unnamed ↦ inl ((eq_iff raw.segment_id "").0 unnamed, ground (arith, h, read, unnamed))
        | inr named ↦ inr (
          λ e. ground (arith, named, e, eq_iff raw.segment_id ""),
          ground (arith, h, read, named),
        )
      ],
    )
  ]

module _ (decode : String → Option Segment) (is_blank : String → Bool) (threshold now : ℕ) where
  -- a field that is not in the hash is not done
  pub scan_foreign :
      (d : Dict String) (j : String)
      → get d j ≡ none
      → has (scan decode is_blank threshold now d).1 j ≡ false
  unfolding scan get
  scan_foreign [] j h = refl
  scan_foreign ((k, v) ∷ d) j h = elim (Bool-cases (str_eq k j)) [
    | inl same ↦ ground (arith, h, same)
    | inr other ↦ ground (
      arith,
      scan_foreign d j (ground (arith, h, other)),
      other,
      has-take_in (field_fate decode is_blank threshold now k v) k j
          (scan decode is_blank threshold now d),
    )
  ]

  -- a field is done but where it is kept
  pub scan_done :
      (d : Dict String) (j v : String)
      → IsHash d
      → get d j ≡ some v
      → has (scan decode is_blank threshold now d).1 j
        ≡ not (is_keep (field_fate decode is_blank threshold now j v))
  unfolding scan get
  scan_done [] j v u h = ground (arith, h)
  scan_done ((k, w) ∷ d) j v u h = elim (Bool-cases (str_eq k j)) [
    | inl same ↦ ground (
      arith,
      scan_foreign d j (ground (arith, eq_iff k j, same, u.0)),
      same,
      h,
      eq_iff k j,
      has-take_in (field_fate decode is_blank threshold now k w) k j
          (scan decode is_blank threshold now d),
    )
    | inr other ↦ ground (
      arith,
      scan_done d j v u.1 (ground (arith, h, other)),
      other,
      has-take_in (field_fate decode is_blank threshold now k w) k j
          (scan decode is_blank threshold now d),
    )
  ]

  -- a segment to flush is in the batch
  scan_batch :
      (d : Dict String) (j v : String) (seg : Segment)
      → get d j ≡ some v
      → field_fate decode is_blank threshold now j v ≡ FieldFate.flush seg
      → IsIn seg (scan decode is_blank threshold now d).0
  unfolding scan get
  scan_batch [] j v seg h f = ground (arith, h)
  scan_batch ((k, w) ∷ d) j v seg h f =
      IsIn-take_in (field_fate decode is_blank threshold now k w) k
        (scan decode is_blank threshold now d) seg
        (elim (Bool-cases (str_eq k j)) [
          | inl same ↦ inl (ground (arith, same, eq_iff k j, h, f))
          | inr other ↦ inr (scan_batch d j v seg (ground (arith, h, other)) f)
        ])

module _ {ℓ} {W : Type ℓ} (upsert_segments : W → List Segment → W × Bool)
    (decode : String → Option Segment) (is_blank : String → Bool) where
  -- a write leaves the hash, or is confirmed and trims it
  write_fields :
      (sink : W) (h : LiveHash) (batch : List Segment) (done : List String)
      → let (sink', h', n) = write upsert_segments decode is_blank sink h batch done in
        (h'.fields ≡ h.fields)
        ⊎ ((h'.fields ≡ hdel h.fields done)
            × ((batch ≡ []) ⊎ (upsert_segments sink batch ≡ (sink', true))))
  unfolding write trim
  write_fields sink h [] done = inr (refl, inl refl)
  write_fields sink h (seg ∷ batch) done =
      elim (Bool-cases (upsert_segments sink (seg ∷ batch)).1) [
        | inl confirmed ↦ rw confirmed (inr (refl, inr refl))
        | inr raised ↦ rw raised (inl refl)
      ]

  -- where the value of a field is, after a flush that leaves these fields and this sink
  abbrev pub IsAccounted : String → String → W → Dict String → W → Type ℓ
  IsAccounted field value sink fields' sink' =
      (get fields' field ≡ some value)
      ⊎ IsNeverStored decode is_blank value
      ⊎ ((seg : Segment) × (batch : List Segment) × IsSegmentOf decode is_blank field value seg
          × IsIn seg batch
          × (upsert_segments sink batch ≡ (sink', true)))

  module _ (threshold now : ℕ) (fields : Dict String) (field value : String)
      (unique : IsHash fields) (found : get fields field ≡ some value) where
    trimmed :
        (sink sink' : W) (x : FieldFate)
        → field_fate decode is_blank threshold now field value ≡ x
        → let (batch, done) = scan decode is_blank threshold now fields in
          ((batch ≡ []) ⊎ (upsert_segments sink batch ≡ (sink', true)))
          → IsAccounted field value sink (hdel fields done) sink'
    trimmed sink sink' FieldFate.keep e written = inl (
        ground (
          arith,
          e,
          found,
          scan_done decode is_blank threshold now fields field value unique found,
          get-hdel fields (scan decode is_blank threshold now fields).1 field,
        ))
    trimmed sink sink' FieldFate.discard e written =
        inr (inl (discard-IsNeverStored decode is_blank threshold now field value e))
    trimmed sink sink' (FieldFate.flush seg) e (inl empty) = absurd (
        subst (IsIn seg) empty
          (scan_batch decode is_blank threshold now fields field value seg found e))
    trimmed sink sink' (FieldFate.flush seg) e (inr confirmed) = inr (
        inr (
          seg,
          (scan decode is_blank threshold now fields).0,
          flush-IsSegmentOf decode is_blank threshold now field value seg e,
          scan_batch decode is_blank threshold now fields field value seg found e,
          confirmed,
        ))

    accounted :
        (sink sink' : W) (fields' : Dict String)
        → let (batch, done) = scan decode is_blank threshold now fields in
          ((fields' ≡ fields)
            ⊎ ((fields' ≡ hdel fields done)
                × ((batch ≡ []) ⊎ (upsert_segments sink batch ≡ (sink', true)))))
          → IsAccounted field value sink fields' sink'
    accounted sink sink' fields' (inl same) = inl (rw same found)
    accounted sink sink' fields' (inr (gone, written)) =
        subst (λ d. IsAccounted field value sink d sink') (sym gone)
          (trimmed sink sink' (field_fate decode is_blank threshold now field value) refl written)

  -- A field of the live hash is after a flush, whatever the sink answers, in one of three states: it
  -- is in the hash still, its value is one that is never stored (no JSON, or a blank text), or the
  -- segment that it holds, under the field's name if it has no id, is in a batch that the sink has
  -- taken and confirmed.
  pub flush_lossless :
      (sink : W) (h : LiveHash) (threshold now : ℕ) (field value : String)
      → IsHash h.fields
      → get h.fields field ≡ some value
      → let (sink', h', n) =
          flush_meeting_segments upsert_segments decode is_blank sink h threshold now in
        IsAccounted field value sink h'.fields sink'
  unfolding flush_meeting_segments
  flush_lossless sink h threshold now field value unique found =
      elim (Bool-cases (is_nil h.fields)) [
        | inl empty ↦ rw empty (inl found)
        | inr full ↦
            let (batch, done) = scan decode is_blank threshold now h.fields in
            let (sink', h', n) = write upsert_segments decode is_blank sink h batch done in
            rw full (
              accounted threshold now h.fields field value unique found sink sink' h'.fields
                (write_fields sink h batch done))
      ]
