-- ===== src/Prelude/Ints.antt =====
-- Signed integers (exit codes) and their decimal text.
use Prim.Native.Nat.{ℕ, zero, suc, ◌/◌, ◌%◌}
use Prim.Native.String.{String, ◌++◌}
use mathlib.Core.Bool.{Bool, false}
use mathlib.Core.List.{List, [], ◌∷◌}
use meeting_bot_service.Prelude.Tests.{ltb, ◌==◌, if◌then◌else◌}
use meeting_bot_service.Prelude.Lists.{get_or}

-- `negsuc n` is -(n + 1)
pub data ℤ : Type 0 where
  pos negsuc : ℕ → ℤ

abbrev pub is_zero : ℤ → Bool
is_zero (pos n) = n == 0
is_zero (negsuc n) = false

abbrev digits : List String
digits = "0" ∷ "1" ∷ "2" ∷ "3" ∷ "4" ∷ "5" ∷ "6" ∷ "7" ∷ "8" ∷ "9" ∷ []

-- at most one digit for each unit of fuel; n + 1 units are enough for n
show_from : ℕ → ℕ → String → String
show_from zero n acc = acc
show_from (suc f) n acc =
    let rest = show_from f (n / 10) (get_or digits (n % 10) "0" ++ acc) in
    if ltb n 10 then get_or digits n "0" ++ acc else rest

-- str(n)
unfoldable pub show_nat : ℕ → String
unfolding show_from
show_nat n = show_from (suc n) n ""

unfoldable pub show_int : ℤ → String
unfolding show_nat
show_int (pos n) = show_nat n
show_int (negsuc n) = "-" ++ show_nat (suc n)
