-- ===== src/Webhooks/Guard.antt =====
-- webhooks/ssrf.py: the guard on webhook targets. urlparse, ip_address and the resolver are parameters;
-- an address is the number that ipaddress reads from its text, and none is a ValueError.
pub mod Dials
use meeting_bot_service.Prelude.{
  ℕ, ◌+◌, ◌*◌, Bool, true, false, not, ◌&&◌, ◌||◌, String, Option, none, some, List, [], ◌∷◌, leb,
  ltb, str_eq, is_empty, bytes_eq, lower_codes, if◌then◌else◌,
}

pub data Address : Type 0 where
  v4 : ℕ → Address
  v6 : ℕ → Address

-- a network: its first address and how many it has
abbrev pub Network : Type 0
Network = ℕ × ℕ

abbrev pub is_in : ℕ → Network → Bool
is_in a (base, size) = leb base a && ltb a (base + size)

abbrev pub in_any : ℕ → List Network → Bool
in_any a [] = false
in_any a (n ∷ ns) = is_in a n || in_any a ns

-- _BLOCKED_IPV4_NETWORKS: 0.0.0.0/8, 10.0.0.0/8, 127.0.0.0/8, 169.254.0.0/16, 172.16.0.0/12,
-- 192.168.0.0/16 and 224.0.0.0/4
abbrev pub blocked_ipv4_networks : List Network
blocked_ipv4_networks =
    (0, 16777216)
    ∷ (167772160, 16777216)
    ∷ (2130706432, 16777216)
    ∷ (2851995648, 65536)
    ∷ (2886729728, 1048576)
    ∷ (3232235520, 65536)
    ∷ (3758096384, 268435456)
    ∷ []

-- _BLOCKED_IPV6_NETWORKS: ::1/128, fc00::/7, fe80::/10 and ff00::/8
abbrev pub blocked_ipv6_networks : List Network
blocked_ipv6_networks =
    (1, 1)
    ∷ (334965454937798799971759379190646833152, 2658455991569831745807614120560689152)
    ∷ (338288524927261089654018896841347694592, 332306998946228968225951765070086144)
    ∷ (338953138925153547590470800371487866880, 1329227995784915872903807060280344576)
    ∷ []

abbrev pub is_blocked_address : Address → Bool
is_blocked_address (v4 a) = in_any a blocked_ipv4_networks
is_blocked_address (v6 a) = in_any a blocked_ipv6_networks

-- _BLOCKED_HOSTNAMES
abbrev pub blocked_hostnames : List String
blocked_hostnames =
    "localhost" ∷ "metadata.google.internal" ∷ "metadata.amazonaws.com" ∷ "metadata" ∷ "api-gateway"
    ∷ "admin-api" ∷ "meeting-api" ∷ "runtime-api" ∷ "transcription-collector" ∷ "redis" ∷ "postgres"
    ∷ "mcp" ∷ []

abbrev pub is_lowered_one : String → List String → Bool
is_lowered_one h [] = false
is_lowered_one h (n ∷ ns) = bytes_eq (lower_codes h) (lower_codes n) || is_lowered_one h ns

-- _is_blocked_hostname: no other character is lowered to one of these names'
unfoldable pub is_blocked_hostname : String → Bool
is_blocked_hostname h = is_lowered_one h blocked_hostnames

-- the messages of SSRFError
pub data SsrfError : Type 0 where
  bad_scheme no_hostname internal_target unresolved : SsrfError

pub data Checked {ℓ} (A : Type ℓ) : Type ℓ where
  ok : A → Checked A
  ssrf_error : SsrfError → Checked A
  value_error : Checked A

-- what urlparse finds; `port` is none where reading it raises
pub record ParsedUrl : Type 0 where
  pub scheme : String
  pub hostname : Option String
  pub port : Option (Option ℕ)

pub record PinnedUrl : Type 0 where
  pub url : String
  pub host : String
  pub port : Option ℕ
  pub scheme : String
  pub pinned_ips : List String

-- what the connection is made to, or the exception
pub data Dial : Type 0 where
  dialled : String → Dial
  refused : SsrfError → Dial

module _ (ip_address : String → Option Address) (resolver : String → List String) where
  -- _is_blocked_ip
  unfoldable pub is_blocked_ip : String → Bool
  is_blocked_ip text = elim (ip_address text) [ none ↦ true | some a ↦ is_blocked_address a ]

  -- is the host a literal address
  abbrev pub is_literal : String → Bool
  is_literal host = elim (ip_address host) [ none ↦ false | some a ↦ true ]

  -- the loop of _validate_resolved_ips
  abbrev pub any_blocked : List String → Bool
  any_blocked [] = false
  any_blocked (t ∷ ts) = is_blocked_ip t || any_blocked ts

  -- _validate_resolved_ips
  unfoldable pub validate_resolved_ips : List String → Checked (List String)
  validate_resolved_ips [] = Checked.ssrf_error SsrfError.unresolved
  validate_resolved_ips (t ∷ ts) =
      if any_blocked (t ∷ ts)
      then Checked.ssrf_error SsrfError.internal_target
      else Checked.ok (t ∷ ts)

  -- the addresses of a host. SSRFError is a ValueError, so that of a literal address is taken for the
  -- answer that the host is no literal, and the host goes to the resolver.
  unfoldable pub check_host : String → Checked (List String)
  check_host host =
      if is_literal host && not (is_blocked_ip host)
      then Checked.ok (host ∷ [])
      else validate_resolved_ips (resolver host)

  abbrev pub pin :
      String → ParsedUrl → String → Option ℕ → Checked (List String) → Checked PinnedUrl
  pin url p host port (ok ips) =
      Checked.ok
        (record { url = url; host = host; port = port; scheme = p.scheme; pinned_ips = ips })
  pin url p host port (ssrf_error e) = Checked.ssrf_error e
  pin url p host port value_error = Checked.value_error

  -- the checks on a host name
  unfoldable pub guard_host : String → ParsedUrl → String → Option (Option ℕ) → Checked PinnedUrl
  guard_host url p host none =
      if is_blocked_hostname host
      then Checked.ssrf_error SsrfError.internal_target
      else Checked.value_error
  guard_host url p host (some port) =
      if is_blocked_hostname host
      then Checked.ssrf_error SsrfError.internal_target
      else pin url p host port (check_host host)

  abbrev pub guard_name : String → ParsedUrl → Option String → Checked PinnedUrl
  guard_name url p none = Checked.ssrf_error SsrfError.no_hostname
  guard_name url p (some host) =
      if is_empty host
      then Checked.ssrf_error SsrfError.no_hostname
      else guard_host url p host p.port

  -- validate_webhook_url
  unfoldable pub validate_webhook_url : (String → Option ParsedUrl) → String → Checked PinnedUrl
  validate_webhook_url urlparse url = elim (urlparse url) [
    | none ↦ Checked.value_error
    | some p ↦
        if str_eq p.scheme "http" || str_eq p.scheme "https"
        then guard_name url p p.hostname
        else Checked.ssrf_error SsrfError.bad_scheme
  ]

  -- revalidate_at_connect
  unfoldable pub revalidate_at_connect : String → Checked (List String)
  revalidate_at_connect host =
      if is_blocked_hostname host
      then Checked.ssrf_error SsrfError.internal_target
      else check_host host

  -- the dial of a literal, and the pin of a name to the first address
  abbrev pub dial_checked : String → Bool → Checked (List String) → Dial
  dial_checked host literal (ssrf_error e) = Dial.refused e
  dial_checked host literal value_error = Dial.refused SsrfError.unresolved
  dial_checked host literal (ok []) = Dial.refused SsrfError.unresolved
  dial_checked host literal (ok (t ∷ ts)) = if literal then Dial.dialled host else Dial.dialled t

  -- handle_async_request
  unfoldable pub handle_request : String → Dial
  handle_request host = dial_checked host (is_literal host) (revalidate_at_connect host)
