-- ===== src/Tests/GatewayRuns.antt =====
-- The theorems on gateway/ratelimit.py, for one user with a burst of two requests, and on
-- gateway/edge_guard.py, for an address that is banned.
use meeting_bot_service.Prelude.{
  ℕ, ◌+◌, ◌-◌, ◌*◌, ◌≤◌, true, List, [], ◌∷◌, ◌≡◌, refl, get, put, remove, str_eq, arith,
}
use meeting_bot_service.Gateway.RateLimit.{Limiter}
use meeting_bot_service.Gateway.RateLimit.Window.{Request, level, granted, granted_bound}
use meeting_bot_service.Gateway.WsGuard.{
  GuardConfig, fresh_guard, check, heed_ban, limit_rate, strike, prune, ip_matches,
}
use meeting_bot_service.Gateway.WsGuard.Admissions.{
  admissions, IsOrdered, IsSpaced, admissions_limited,
}

abbrev two_a_second : Limiter
two_a_second = record { capacity = 2000000; refill = 2 }

abbrev request_at : ℕ → Request
request_at t = record { at = t; key = "alice"; cost = 1000000 }

abbrev burst : List Request
burst = request_at 0 ∷ request_at 10 ∷ request_at 20 ∷ request_at 500000 ∷ []

granted_bound_example :
    (granted two_a_second [] burst "alice"
      ≤ level two_a_second (get [] "alice") 0 + (1000000 - 0) * 2)
    × (level two_a_second (get [] "alice") 0 ≤ 2000000)
unfolding get
granted_bound_example =
    granted_bound two_a_second burst [] "alice" 0 1000000 (λ key b found. cc)
      (omega arith, (omega arith, (omega arith, (omega arith, omega arith))))

abbrev guard_config : GuardConfig
guard_config = record {
  whitelist = "10.0.0.1" ∷ [];
  blacklist = "203.0.113.9" ∷ [];
  enable_rate_limiting = true;
  rate_limit = 2;
  rate_limit_window = 60;
  enable_ip_banning = true;
  auto_ban_threshold = 2;
  auto_ban_duration = 300;
}

-- two admissions, a strike, the ban, a refusal under it, and a fresh budget after it
abbrev connects : List ℕ
connects = 1 ∷ 2 ∷ 3 ∷ 4 ∷ 5 ∷ 400 ∷ 401 ∷ 402 ∷ []

connects_admitted :
    admissions str_eq guard_config fresh_guard "198.51.100.7" connects ≡ 1 ∷ 2 ∷ 400 ∷ 401 ∷ []
unfolding admissions check heed_ban limit_rate strike prune ip_matches get put remove
connects_admitted = refl

admissions_limited_example :
    IsSpaced guard_config [] (admissions str_eq guard_config fresh_guard "198.51.100.7" connects)
unfolding ip_matches IsOrdered
admissions_limited_example =
    admissions_limited str_eq guard_config "198.51.100.7" connects refl (omega arith) refl (
      omega arith,
      (
        omega arith,
        (
          omega arith,
          (omega arith, (omega arith, (omega arith, (omega arith, (omega arith, tt))))),
        ),
      ),
    )
