-- ===== src/Gateway/RateLimit/Window.antt =====
-- What the buckets grant in a window of time.
use meeting_bot_service.Prelude.{
  ℕ, ◌+◌, ◌-◌, ◌*◌, ◌≤◌, Bool, true, false, ◌&&◌, String, Option, some, List, [], ◌∷◌, ◌≡◌, get,
  get-put, str_eq, arith, eq_iff, Option-cases, inl, inr,
}
use meeting_bot_service.Gateway.RateLimit.{
  Bucket, Limiter, Buckets, bucket_of, refilled, charge, allow,
}

-- one request at the limiter
pub record Request : Type 0 where
  pub at : ℕ
  pub key : String
  pub cost : ℕ

-- what a key can spend at a time
abbrev pub level : Limiter → Option Bucket → ℕ → ℕ
level l o now = refilled l (bucket_of l o now) now

-- the requests come in order of time, from t0 to t1
abbrev pub IsWithin : ℕ → ℕ → List Request → Type 0
IsWithin t0 t1 [] = t0 ≤ t1
IsWithin t0 t1 (r ∷ rs) = (t0 ≤ r.at) × IsWithin r.at t1 rs

-- every bucket was last refilled by this time
abbrev pub IsPast : Buckets → ℕ → Type 0
IsPast bs t = (key : String) (b : Bucket) → get bs key ≡ some b → b.last ≤ t

abbrev pub spent : Bool → ℕ → ℕ
spent true cost = cost
spent false cost = 0

module _ (l : Limiter) where
  -- the total that a key is granted
  unfoldable pub granted : Buckets → List Request → String → ℕ
  granted bs [] key = 0
  granted bs (r ∷ rs) key =
      let (bs', ok) = allow l bs r.at r.key r.cost in
      spent (ok && str_eq r.key key) r.cost + granted bs' rs key

  span : (a b c : ℕ) → a ≤ b → b ≤ c → (c - a) * l.refill ≡ (c - b) * l.refill + (b - a) * l.refill
  span a b c h g = grind arith

  allow-level :
      (bs : Buckets) (now : ℕ) (key k : String) (cost : ℕ)
      → let (bs', ok) = allow l bs now key cost in
        level l (get bs' k) now + spent (ok && str_eq key k) cost ≡ level l (get bs k) now
  unfolding allow charge
  allow-level bs now key k cost =
      ground (arith, eq_iff key k, get-put bs key k (charge (level l (get bs key) now) now cost).0)

  allow-IsPast :
      (bs : Buckets) (now : ℕ) (key : String) (cost : ℕ)
      → IsPast bs now
      → IsPast (allow l bs now key cost).0 now
  unfolding allow charge
  allow-IsPast bs now key cost h k b found =
      ground (
        arith,
        h k b,
        eq_iff key k,
        get-put bs key k (charge (level l (get bs key) now) now cost).0,
      )

  level_later :
      (bs : Buckets) (k : String) (t0 t1 : ℕ)
      → IsPast bs t0
      → t0 ≤ t1
      → level l (get bs k) t1 ≤ level l (get bs k) t0 + (t1 - t0) * l.refill
  level_later bs k t0 t1 h le = elim (Option-cases (get bs k)) [
    | inl fresh ↦ ground (arith, fresh)
    | inr (b, found) ↦ ground (arith, found, h k b found, span b.last t0 t1 (h k b found) le)
  ]

  IsWithin-le : (t0 t1 : ℕ) (rs : List Request) → IsWithin t0 t1 rs → t0 ≤ t1
  IsWithin-le t0 t1 [] h = h
  IsWithin-le t0 t1 (r ∷ rs) h = omega (arith, h.0, IsWithin-le r.at t1 rs h.1)

  granted_within :
      (rs : List Request) (bs : Buckets) (key : String) (t0 t1 : ℕ)
      → IsPast bs t0
      → IsWithin t0 t1 rs
      → granted bs rs key ≤ level l (get bs key) t0 + (t1 - t0) * l.refill
  unfolding granted
  granted_within [] bs key t0 t1 past within = omega arith
  granted_within (r ∷ rs) bs key t0 t1 past within =
      let bs' = (allow l bs r.at r.key r.cost).0 in
      let past' : IsPast bs r.at = λ k b found. omega (arith, past k b found, within.0) in
      omega (
        arith,
        granted_within rs bs' key r.at t1 (allow-IsPast bs r.at r.key r.cost past') within.1,
        allow-level bs r.at r.key key r.cost,
        level_later bs key t0 r.at past within.0,
        span t0 r.at t1 within.0 (IsWithin-le r.at t1 rs within.1),
      )

  -- From any state of the buckets, the requests of any clients in a window of time are granted at most,
  -- for each key, what its bucket holds at the start and the refill of the whole window; with the
  -- capacity as a bound of the former.
  pub granted_bound :
      (rs : List Request) (bs : Buckets) (key : String) (t0 t1 : ℕ)
      → IsPast bs t0
      → IsWithin t0 t1 rs
      → (granted bs rs key ≤ level l (get bs key) t0 + (t1 - t0) * l.refill)
        × (level l (get bs key) t0 ≤ l.capacity)
  unfolding granted
  granted_bound rs bs key t0 t1 past within =
      (granted_within rs bs key t0 t1 past within, omega arith)

  -- A key that has waited long enough is granted its request, whatever was asked for before.
  allow_recovers :
      (bs : Buckets) (now : ℕ) (key : String) (cost : ℕ)
      → cost ≤ l.capacity
      → ((b : Bucket) → get bs key ≡ some b → cost ≤ (now - b.last) * l.refill)
      → (allow l bs now key cost).1 ≡ true
  unfolding allow charge
  allow_recovers bs now key cost fits waited = elim (Option-cases (get bs key)) [
    | inl fresh ↦ ground (arith, fresh)
    | inr (b, found) ↦ ground (arith, found, waited b found)
  ]
