-- ===== src/Recordings/Fold/Completion.antt =====
-- The status of a recording after any sequence of chunks.
use meeting_bot_service.Prelude.{
  ℕ, ◌+◌, Bool, false, ◌&&◌, ◌||◌, not, Option, none, some, List, [], ◌∷◌, ◌≡◌, str_eq, arith, bit,
}
use meeting_bot_service.Recordings.Fold.{Recording, Chunk, opening, close, apply_chunk_to_recording}
use meeting_bot_service.Recordings.Fold.Totals.{fold_chunks}

abbrev pub is_completed : Option Recording → Bool
is_completed none = false
is_completed (some r) = elim r.status [ none ↦ false | some s ↦ str_eq s "completed" ]

abbrev pub any_final : List Chunk → Bool
any_final [] = false
any_final (c ∷ cs) = c.is_final || any_final cs

-- how often the fold answers that the recording has become completed
unfoldable pub transitions : Option Recording → List Chunk → ℕ
transitions r [] = 0
transitions r (c ∷ cs) =
    let (r', became) = apply_chunk_to_recording r c in bit became + transitions (some r') cs

apply_chunk-is_completed :
    (r : Option Recording) (c : Chunk)
    → (is_completed (some (apply_chunk_to_recording r c).0) ≡ is_completed r || c.is_final)
      × ((apply_chunk_to_recording r c).1 ≡ not (is_completed r) && c.is_final)
unfolding apply_chunk_to_recording opening close
apply_chunk-is_completed none c = ground arith
apply_chunk-is_completed (some r) c = ground arith

-- Over any chunks, a recording is completed exactly if it was or one of them is final, and the fold
-- announces it once, at the first final chunk of a recording that was not completed.
fold_completes :
    (cs : List Chunk) (r : Option Recording)
    → (is_completed (fold_chunks r cs) ≡ is_completed r || any_final cs)
      × (transitions r cs ≡ bit (not (is_completed r) && any_final cs))
unfolding fold_chunks transitions
fold_completes [] r = ground arith
fold_completes (c ∷ cs) r =
    ground (
      arith,
      apply_chunk-is_completed r c,
      fold_completes cs (some (apply_chunk_to_recording r c).0),
    )
