-- ===== src/Collector/DbWriter/Completion.antt =====
-- The flush of a meeting that has ended.
use meeting_bot_service.Prelude.{
  ℕ, Bool, true, false, String, Option, List, [], ◌∷◌, ◌≡◌, refl, Dict, get, is_nil, arith,
  Bool-cases, Option-cases, inl, inr,
}
use meeting_bot_service.Collector.DbWriter.{
  Segment, LiveHash, field_fate, scan, hdel, trim, write, flush_meeting_segments,
}
use meeting_bot_service.Collector.DbWriter.Durability.{
  IsHash, is_keep, get-hdel, all_gone, scan_done,
}

module _ (decode : String → Option Segment) (is_blank : String → Bool) (now : ℕ) where
  -- without a threshold no segment is kept back
  fate_final :
      (field value : String) → is_keep (field_fate decode is_blank 0 now field value) ≡ false
  unfolding field_fate
  fate_final field value = ground (arith, Option-cases (decode value))

  hdel_drained : (d : Dict String) → IsHash d → hdel d (scan decode is_blank 0 now d).1 ≡ []
  hdel_drained d unique = all_gone (hdel d (scan decode is_blank 0 now d).1) (λ j.
      elim (Option-cases (get d j)) [
        | inl gone ↦ ground (arith, gone, get-hdel d (scan decode is_blank 0 now d).1 j)
        | inr (v, here) ↦ ground (
          arith,
          get-hdel d (scan decode is_blank 0 now d).1 j,
          scan_done decode is_blank 0 now d j v unique here,
          fate_final j v,
        )
      ])

module _ {ℓ} {W : Type ℓ} (upsert_segments : W → List Segment → W × Bool)
    (decode : String → Option Segment) (is_blank : String → Bool) where
  -- A flush with the threshold 0, which the end of a meeting runs, leaves nothing in the live hash and
  -- takes the meeting from the active ones, where the sink confirms what it is given.
  flush_drains :
      (sink : W) (h : LiveHash) (now : ℕ)
      → IsHash h.fields
      → ((batch : List Segment) → (upsert_segments sink batch).1 ≡ true)
      → let (sink', h', n) = flush_meeting_segments upsert_segments decode is_blank sink h 0 now in
        (h'.fields ≡ []) × (h'.active ≡ false)
  unfolding flush_meeting_segments write trim
  flush_drains sink h now unique confirms = elim (Bool-cases (is_nil h.fields)) [
    | inl empty ↦ rw empty (nil h.fields empty, refl)
    | inr full ↦ rw full (written (scan decode is_blank 0 now h.fields).0)
  ]
    where
      nil : (d : Dict String) → is_nil d ≡ true → d ≡ []
      nil [] e = refl
      nil (p ∷ d) e = ground (arith, e)

      drained : hdel h.fields (scan decode is_blank 0 now h.fields).1 ≡ []
      drained = hdel_drained decode is_blank now h.fields unique

      written :
          (batch : List Segment)
          → let (sink', h', n) =
              write upsert_segments decode is_blank sink h batch
                (scan decode is_blank 0 now h.fields).1 in
            (h'.fields ≡ []) × (h'.active ≡ false)
      written [] = (drained, ground (arith, drained))
      written (seg ∷ batch) = rw (confirms (seg ∷ batch)) (drained, ground (arith, drained))
