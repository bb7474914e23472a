-- ===== src/Lifecycle/Logs.antt =====
-- lifecycle/machine.py: the cap on the bot's log ring buffer.
pub mod Trimmed
use Prim.Native.String.{len}
use mathlib.Core.List.{reverse}
use meeting_bot_service.Prelude.{
  ℕ, ◌+◌, ◌*◌, Bool, true, false, ◌&&◌, not, String, List, [], ◌∷◌, ltb, is_nil, if◌then◌else◌,
}

-- _BOT_LOGS_BYTE_BUDGET
abbrev pub bot_logs_byte_budget : ℕ
bot_logs_byte_budget = 50 * 1024

-- The loop of `_trim_bot_logs` over the lines from the newest back. `kept` stands in chronological
-- order, the reverse of the source's list, so `kept.append` is a cons and the final `reversed` is
-- nothing to do. `len` counts the bytes of the UTF-8 text.
unfoldable pub trim_from : ℕ → List String → List String → ℕ → List String × Bool
trim_from budget [] kept used = (kept, false)
trim_from budget (line ∷ older) kept used =
    let size = len line + 1 in
    let rest = trim_from budget older (line ∷ kept) (used + size) in
    if ltb budget (used + size) && not (is_nil kept) then (kept, true) else rest

-- _trim_bot_logs
unfoldable pub trim_bot_logs : List String → List String × Bool
unfolding trim_from
trim_bot_logs lines = trim_from bot_logs_byte_budget (reverse lines) [] 0
