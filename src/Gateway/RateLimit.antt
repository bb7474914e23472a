-- ===== src/Gateway/RateLimit.antt =====
-- gateway/ratelimit.py: the token bucket of each user. Times are microseconds, amounts of tokens are
-- millionths of a token, and the refill is whole tokens a second, so that every product is exact.
pub mod Window
use mathlib.Core.Option
use meeting_bot_service.Prelude.{
  ℕ, ◌+◌, ◌-◌, ◌*◌, min, Bool, true, false, String, Option, none, some, Dict, get, put, leb, ◌||◌,
  ◌==◌, if◌then◌else◌,
}

-- _Bucket
pub record Bucket : Type 0 where
  pub tokens : ℕ
  pub last : ℕ

-- a PerUserRateLimiter without its buckets
pub record Limiter : Type 0 where
  pub capacity : ℕ
  pub refill : ℕ

-- PerUserRateLimiter.__init__; `none` is the ValueError
unfoldable pub limiter : ℕ → ℕ → Option Limiter
limiter capacity refill =
    if capacity == 0 then none else some (record { capacity = capacity; refill = refill })

-- self._buckets
abbrev pub Buckets : Type 0
Buckets = Dict Bucket

-- the bucket of a key, which starts full
abbrev pub bucket_of : Limiter → Option Bucket → ℕ → Bucket
bucket_of l none now = record { tokens = l.capacity; last = now }
bucket_of l (some b) now = b

-- the refill for the elapsed time, capped
abbrev pub refilled : Limiter → Bucket → ℕ → ℕ
refilled l b now = min l.capacity (b.tokens + (now - b.last) * l.refill)

-- the test and the charge
unfoldable pub charge : ℕ → ℕ → ℕ → Bucket × Bool
charge level now cost =
    if leb cost level
    then (record { tokens = level - cost; last = now }, true)
    else (record { tokens = level; last = now }, false)

-- PerUserRateLimiter.allow
unfoldable pub allow : Limiter → Buckets → ℕ → String → ℕ → Buckets × Bool
unfolding charge
allow l bs now key cost =
    let (b, granted) = charge (refilled l (bucket_of l (get bs key) now) now) now cost in
    (put bs key b, granted)
