-- ===== src/Lifecycle/Logs/Trimmed.antt =====
-- `_trim_bot_logs` keeps the longest run of newest lines within the budget, and at least one line.
use Prim.Native.String.{len}
use mathlib.Core.List.{reverse, reverse-append, append_assoc, append-nil, reverse-reverse}
use meeting_bot_service.Prelude.{
  ℕ, suc, ◌+◌, ◌≤◌, ◌<◌, Bool, true, false, ◌&&◌, not, String, List, [], ◌∷◌, ◌++◌, ◌≡◌, ◌≢◌, ◌⊎◌,
  inl, inr, refl, arith, ap, ◌∙◌, ltb, is_nil, length, Bool-cases,
}
use meeting_bot_service.Lifecycle.Logs.{trim_from, trim_bot_logs, bot_logs_byte_budget}

-- the size of some lines, each with its newline
unfoldable pub bytes : List String → ℕ
bytes [] = 0
bytes (line ∷ lines) = len line + 1 + bytes lines

-- what cutting `lines` to `out.0` with the mark `out.1` promises
pub record Trimmed (budget : ℕ) (lines : List String) (out : List String × Bool) : Type 0 where
  pub dropped : List String
  pub split : lines ≡ dropped ++ out.0
  pub fits : (bytes out.0 ≤ budget) ⊎ (length out.0 ≤ 1)
  pub whole : out.1 ≡ false → dropped ≡ []
  pub longest :
      out.1 ≡ true
      → (front : List String) × (line : String) × (dropped ≡ front ++ line ∷ [])
        × (budget < bytes (line ∷ out.0))
        × (out.0 ≢ [])

newest_first :
    (older : List String) (line : String) (kept : List String)
    → reverse (line ∷ older) ++ kept ≡ reverse older ++ line ∷ kept
newest_first older line kept =
    ap (λ (l : List String). l ++ kept) (reverse-append (line ∷ []) older)
    ∙ append_assoc (reverse older) (line ∷ []) kept

module _ (budget : ℕ) where
  kept_some : (n : ℕ) (kept : List String) → ltb budget n && not (is_nil kept) ≡ true → kept ≢ []
  kept_some n [] h = λ _. ground arith
  kept_some n (x ∷ xs) h = λ e. cc

  room_fits :
      (kept : List String) (used size : ℕ)
      → (used ≤ budget) ⊎ (length kept ≤ 1)
      → ltb budget (used + size) && not (is_nil kept) ≡ false
      → (used + size ≤ budget) ⊎ (suc (length kept) ≤ 1)
  room_fits [] used size f h = inr (omega arith)
  room_fits (x ∷ xs) used size f h = inl (ground arith)

  trim_from-Trimmed :
      (older kept : List String) (used : ℕ)
      → used ≡ bytes kept
      → (used ≤ budget) ⊎ (length kept ≤ 1)
      → Trimmed budget (reverse older ++ kept) (trim_from budget older kept used)
  unfolding trim_from bytes
  trim_from-Trimmed [] kept used u f = record {
    dropped = [];
    split = refl;
    fits = rw u at f;
    whole = λ _. refl;
    longest = λ h. cc;
  }
  trim_from-Trimmed (line ∷ older) kept used u f =
      elim (Bool-cases (ltb budget (used + (len line + 1)) && not (is_nil kept))) [
        | inl full ↦ rw full (record {
          dropped = reverse (line ∷ older);
          split = refl;
          fits = rw u at f;
          whole = λ h. cc;
          longest = λ _. (
            reverse older,
            line,
            reverse-append (line ∷ []) older,
            ground arith,
            kept_some _ kept full,
          );
        })
        | inr room ↦
            rw (room, newest_first older line kept)
              (trim_from-Trimmed older (line ∷ kept) (used + (len line + 1)) (omega arith)
                (room_fits kept used (len line + 1) f room))
      ]

-- The lines kept are the newest ones, in order. Their bytes fit the budget unless they are a single
-- line. The mark says whether a line was cut, and then the next older line did not fit.
trim_bot_logs-Trimmed :
    (lines : List String) → Trimmed bot_logs_byte_budget lines (trim_bot_logs lines)
unfolding trim_bot_logs bytes
trim_bot_logs-Trimmed lines =
    let all =
      trim_from-Trimmed bot_logs_byte_budget (reverse lines) [] 0 refl (inr (omega arith)) in
    rw (append-nil, reverse-reverse) at all
