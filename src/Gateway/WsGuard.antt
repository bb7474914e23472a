-- ===== src/Gateway/WsGuard.antt =====
-- gateway/edge_guard.py: `_WsGuard`, the limiter of WebSocket connects for each address. Times are
-- milliseconds. `in_network` stands for the standard library's ipaddress: whether an address is in the
-- network of an entry, where a malformed address or entry is in none.
pub mod Admissions
pub mod Windows
use meeting_bot_service.Prelude.{
  ℕ, ◌+◌, Bool, true, false, ◌||◌, String, Option, none, some, List, [], ◌∷◌, ◌++◌, Dict, get, put,
  remove, length, ltb, leb, if◌then◌else◌,
}

-- the fields of SecurityConfig that the guard reads
pub record GuardConfig : Type 0 where
  pub whitelist : List String
  pub blacklist : List String
  pub enable_rate_limiting : Bool
  pub rate_limit : ℕ
  pub rate_limit_window : ℕ
  pub enable_ip_banning : Bool
  pub auto_ban_threshold : ℕ
  pub auto_ban_duration : ℕ

pub record WsGuard : Type 0 where
  pub rl : Dict (List ℕ)
  pub bans : Dict ℕ
  pub ban_counts : Dict ℕ

-- _WsGuard.__init__
abbrev pub fresh_guard : WsGuard
fresh_guard = record { rl = []; bans = []; ban_counts = [] }

-- `self._rl[client_ip]` of a defaultdict
abbrev pub times_of : Option (List ℕ) → List ℕ
times_of none = []
times_of (some ts) = ts

abbrev pub count_of : Option ℕ → ℕ
count_of none = 0
count_of (some n) = n

-- `while bucket and bucket[0] <= now - window: bucket.popleft()`
unfoldable pub prune : ℕ → ℕ → List ℕ → List ℕ
prune window now [] = []
prune window now (t ∷ ts) = if leb (t + window) now then prune window now ts else t ∷ ts

-- _ip_matches
unfoldable pub ip_matches : (String → String → Bool) → String → List String → Bool
ip_matches in_network ip [] = false
ip_matches in_network ip (e ∷ es) = in_network e ip || ip_matches in_network ip es

-- what a connect over the limit leads to
unfoldable pub strike : GuardConfig → WsGuard → String → ℕ → List ℕ → WsGuard
strike cfg g ip now bucket =
    let n = count_of (get g.ban_counts ip) + 1 in
    if cfg.enable_ip_banning
    then (if leb cfg.auto_ban_threshold n
        then record g {
          rl = put g.rl ip [];
          bans = put g.bans ip (now + cfg.auto_ban_duration);
          ban_counts = put g.ban_counts ip 0;
        }
        else record g { rl = put g.rl ip bucket; ban_counts = put g.ban_counts ip n })
    else record g { rl = put g.rl ip bucket }

-- the sliding window
unfoldable pub limit_rate : GuardConfig → WsGuard → String → ℕ → WsGuard × Bool
unfolding strike prune
limit_rate cfg g ip now =
    let bucket = prune cfg.rate_limit_window now (times_of (get g.rl ip)) in
    if cfg.enable_rate_limiting
    then (if leb cfg.rate_limit (length bucket)
        then (strike cfg g ip now bucket, false)
        else (record g { rl = put g.rl ip (bucket ++ now ∷ []) }, true))
    else (g, true)

-- the active ban
unfoldable pub heed_ban : GuardConfig → WsGuard → String → ℕ → WsGuard × Bool
unfolding limit_rate
heed_ban cfg g ip now = elim (get g.bans ip) [
  | none ↦ limit_rate cfg g ip now
  | some unban ↦
      if ltb now unban
      then (g, false)
      else limit_rate cfg (record g { bans = remove g.bans ip }) ip now
]

-- _WsGuard.check
unfoldable pub check :
    (String → String → Bool) → GuardConfig → WsGuard → String → ℕ → WsGuard × Bool
unfolding heed_ban ip_matches
check in_network cfg g ip now =
    if ip_matches in_network ip cfg.whitelist
    then (g, true)
    else if ip_matches in_network ip cfg.blacklist
    then (g, false)
    else heed_ban cfg g ip now
