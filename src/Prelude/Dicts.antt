-- ===== src/Prelude/Dicts.antt =====
-- Python's `dict` with text keys, in insertion order: `d[k] = v` writes in place or appends.
use Prim.Native.Nat.{ℕ, ◌+◌}
use Prim.Native.String.{String}
use mathlib.Core.Path.{◌≡◌, refl}
use mathlib.Core.Bool.{Bool, false, ◌||◌}
use mathlib.Core.List.{List, [], ◌∷◌}
use mathlib.Core.Option.{Option, none, some}
use native.Mathlib.Omega.{arith}
use text.Mathlib.TextEquality.{eq_iff}
use text.Mathlib.TextPositions.{eq_refl}
use meeting_bot_service.Prelude.Tests.{str_eq, if◌then◌else◌, bit}

-- `k in ks`
unfoldable pub one_of : String → List String → Bool
one_of k [] = false
one_of k (j ∷ ks) = str_eq k j || one_of k ks

abbrev pub Dict {ℓ} : Type ℓ → Type ℓ
Dict V = List (String × V)

module _ {ℓ} {V : Type ℓ} where
  -- d.get(k)
  unfoldable pub get : Dict V → String → Option V
  get [] k = none
  get ((j, v) ∷ d) k = if str_eq j k then some v else get d k

  -- d[k] = v
  unfoldable pub put : Dict V → String → V → Dict V
  put [] k v = (k, v) ∷ []
  put ((j, w) ∷ d) k v = if str_eq j k then (j, v) ∷ d else (j, w) ∷ put d k v

  -- d.pop(k, None)
  unfoldable pub remove : Dict V → String → Dict V
  remove [] k = []
  remove ((j, v) ∷ d) k = if str_eq j k then remove d k else (j, v) ∷ remove d k

  -- list(d.values())
  abbrev pub values : Dict V → List V
  values [] = []
  values ((j, v) ∷ d) = v ∷ values d

  -- sum(1 for v in d.values() if p(v))
  unfoldable pub count_if : (V → Bool) → Dict V → ℕ
  count_if p [] = 0
  count_if p ((j, v) ∷ d) = bit (p v) + count_if p d

  pub get-put :
      (d : Dict V) (k j : String) (v : V)
      → get (put d k v) j ≡ (if str_eq k j then some v else get d j)
  unfolding get put
  get-put [] k j v = refl
  get-put ((i, w) ∷ d) k j v = ground (arith, eq_iff i k, eq_iff i j, eq_iff k j, get-put d k j v)

  pub get-remove :
      (d : Dict V) (k j : String) → get (remove d k) j ≡ (if str_eq k j then none else get d j)
  unfolding get remove
  get-remove [] k j = ground arith
  get-remove ((i, w) ∷ d) k j = ground (arith, eq_iff i k, eq_iff i j, eq_iff k j, get-remove d k j)

  pub get-put_self : (d : Dict V) (k : String) (v : V) → get (put d k v) k ≡ some v
  get-put_self d k v = ground (arith, get-put d k k v, eq_refl k)

  pub get-remove_self : (d : Dict V) (k : String) → get (remove d k) k ≡ none
  get-remove_self d k = ground (arith, get-remove d k k, eq_refl k)

  -- what the entry at k counts
  abbrev pub bit_at : (V → Bool) → Option V → ℕ
  bit_at p none = 0
  bit_at p (some v) = bit (p v)

  pub count_if-put :
      (p : V → Bool) (d : Dict V) (k : String) (v : V)
      → count_if p (put d k v) + bit_at p (get d k) ≡ count_if p d + bit (p v)
  unfolding count_if put get
  count_if-put p [] k v = omega arith
  count_if-put p ((j, w) ∷ d) k v = ground (arith, count_if-put p d k v)
