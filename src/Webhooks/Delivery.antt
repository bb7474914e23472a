-- ===== src/Webhooks/Delivery.antt =====
-- webhooks/delivery.py: the event filter, the signature, and WebhookSink.deliver over the guard and the
-- retry queue. json.dumps, the hexadecimal HMAC, the guard's answer and the transport are parameters;
-- bytes that are a text in UTF-8 are that text.
pub mod Fates
pub mod Signature
use Prim.Native.String.{◌++◌ as append}
use Prim.Native.Char.{code}
use text.Mathlib.Text
use meeting_bot_service.Prelude.{
  ℕ, Bool, true, false, not, ◌&&◌, ◌||◌, ◌==◌, String, Option, none, some, List, [], ◌∷◌, Dict, get,
  put, one_of, str_eq, is_empty, leb, ltb, if◌then◌else◌,
}
use meeting_bot_service.Webhooks.Guard.{Checked, ok, ssrf_error, value_error, SsrfError, PinnedUrl}
use meeting_bot_service.Webhooks.Retry.{Redis, Response, status, transport_error, enqueue}

-- _DEFAULT_ENABLED
abbrev pub default_enabled : List String
default_enabled = "meeting.completed" ∷ []

-- the flag of an event, where one is there and not null
abbrev pub flag_or : Bool → Option (Option Bool) → Bool
flag_or b none = b
flag_or b (some none) = b
flag_or b (some (some flag)) = flag

-- is_event_enabled: a configuration that is empty is none
unfoldable pub is_event_enabled : Option (Dict (Option Bool)) → String → Bool
is_event_enabled none event = one_of event default_enabled
is_event_enabled (some config) event = flag_or (one_of event default_enabled) (get config event)

-- _INTERNAL_DATA_KEYS
abbrev pub internal_data_keys : List String
internal_data_keys =
    "webhook_delivery" ∷ "webhook_deliveries" ∷ "webhook_secret" ∷ "webhook_secrets"
    ∷ "webhook_events" ∷ "webhook_url" ∷ "outbound_events" ∷ "bot_container_id" ∷ "container_name"
    ∷ []

-- clean_meeting_data
unfoldable pub clean_meeting_data : Dict String → Dict String
clean_meeting_data [] = []
clean_meeting_data ((k, v) ∷ d) =
    let rest = clean_meeting_data d in if one_of k internal_data_keys then rest else (k, v) ∷ rest

-- c.isspace()
abbrev pub is_space : ℕ → Bool
is_space c =
    leb 9 c && leb c 13
    || leb 28 c && leb c 32
    || c == 133
    || c == 160
    || c == 5760
    || leb 8192 c && leb c 8202
    || c == 8232
    || c == 8233
    || c == 8239
    || c == 8287
    || c == 12288

unfoldable pub lstrip : String → String
lstrip String.[] = String.[]
lstrip (String.◌∷◌ c s) = if is_space (code c) then lstrip s else String.◌∷◌ c s

unfoldable pub rstrip : String → String
rstrip String.[] = String.[]
rstrip (String.◌∷◌ c s) =
    let rest = rstrip s in
    if is_space (code c) && is_empty rest then String.[] else String.◌∷◌ c rest

-- s.strip()
abbrev pub strip : String → String
strip s = rstrip (lstrip s)

module _ (hexdigest : String → String → String) where
  -- sign_payload
  unfoldable pub sign_payload : String → String → String → String
  sign_payload payload secret timestamp =
      append "sha256=" (hexdigest secret (append timestamp (append "." payload)))

  abbrev pub plain_headers : Dict String
  plain_headers = ("Content-Type", "application/json") ∷ []

  abbrev pub signed_headers : String → String → String → Dict String
  signed_headers secret payload ts =
      put
        (put (put plain_headers "Authorization" (append "Bearer " secret)) "X-Webhook-Signature"
          (sign_payload payload secret ts))
        "X-Webhook-Timestamp" ts

  -- build_headers, for a payload and a timestamp
  unfoldable pub build_headers : Option String → String → String → Dict String
  build_headers none payload ts = plain_headers
  build_headers (some secret) payload ts =
      if is_empty secret || is_empty (strip secret)
      then plain_headers
      else signed_headers (strip secret) payload ts

  abbrev pub matches : String → String → Option String → Option String → Bool
  matches payload secret none ts = false
  matches payload secret (some sig) none = false
  matches payload secret (some sig) (some ts) =
      not (is_empty sig || is_empty ts) && str_eq sig (sign_payload payload secret ts)

  -- verify_signature
  unfoldable pub verify_signature : String → Dict String → String → Bool
  verify_signature payload headers secret =
      matches payload secret (get headers "X-Webhook-Signature") (get headers "X-Webhook-Timestamp")

-- DeliveryResult, or the exception that is not caught
pub data DeliveryResult : Type 0 where
  delivered : ℕ → DeliveryResult
  queued : Option ℕ → DeliveryResult
  suppressed : DeliveryResult
  blocked : SsrfError → DeliveryResult
  failed : Option ℕ → DeliveryResult
  crashed : DeliveryResult

pub record Post : Type 0 where
  pub url : String
  pub body : String
  pub headers : Dict String

pub record Webhook : Type 0 where
  pub url : String
  pub event_type : String
  -- json.dumps of the envelope
  pub payload : String
  pub secret : Option String
  pub scope : String
  pub events_config : Option (Dict (Option Bool))
  pub label : String
  pub metadata : Option String

-- the requests made, the queue after them, and the result
pub record Delivered : Type 0 where
  pub posts : List Post
  pub queue : Option Redis
  pub result : DeliveryResult

-- a retryable failure, with the code of the answer where there was one
unfoldable pub put_off : ℕ → Webhook → Option Redis → List Post → Option ℕ → Delivered
put_off now h none posts code = record {
  posts = posts;
  queue = none;
  result = DeliveryResult.failed code;
}
put_off now h (some q) posts code = record {
  posts = posts;
  queue = some (enqueue q h.url h.payload h.secret h.label h.metadata now);
  result = DeliveryResult.queued code;
}

-- what the answer of the transport leads to
unfoldable pub take_response : ℕ → Webhook → Option Redis → List Post → Response → Delivered
take_response now h q posts (transport_error text) = put_off now h q posts none
take_response now h q posts (status c) =
    if ltb c 300
    then record { posts = posts; queue = q; result = DeliveryResult.delivered c }
    else if leb 500 c || c == 429
    then put_off now h q posts (some c)
    else record { posts = posts; queue = q; result = DeliveryResult.failed (some c) }

-- nothing is sent
abbrev pub unsent : Option Redis → DeliveryResult → Delivered
unsent q r = record { posts = []; queue = q; result = r }

module _ (hexdigest : String → String → String) (timestamp : ℕ → String)
    (transport : Post → Response) where
  abbrev pub post_of : ℕ → Webhook → Post
  post_of now h = record {
    url = h.url;
    body = h.payload;
    headers = build_headers hexdigest h.secret h.payload (timestamp now);
  }

  -- what the guard's answer leads to
  unfoldable pub send_guarded : ℕ → Webhook → Option Redis → Checked PinnedUrl → Delivered
  send_guarded now h q (ssrf_error e) = unsent q (DeliveryResult.blocked e)
  send_guarded now h q value_error = unsent q DeliveryResult.crashed
  send_guarded now h q (ok pinned) =
      take_response now h q (post_of now h ∷ []) (transport (post_of now h))

  -- WebhookSink.deliver, at a time
  unfoldable pub deliver : (String → Checked PinnedUrl) → ℕ → Webhook → Option Redis → Delivered
  deliver guard now h q =
      if str_eq h.scope "per-client" && not (is_event_enabled h.events_config h.event_type)
      then unsent q DeliveryResult.suppressed
      else send_guarded now h q (guard h.url)
