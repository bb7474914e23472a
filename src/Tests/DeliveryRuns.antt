-- ===== src/Tests/DeliveryRuns.antt =====
-- The theorems on webhooks/ssrf.py and webhooks/delivery.py, for a private address, a public one, and a
-- receiver that is down.
use Prim.Native.String.{◌++◌ as append}
use meeting_bot_service.Prelude.{
  ◌+◌, ◌≡◌, refl, true, false, String, Option, none, some, List, [], ◌∷◌, ◌++◌, one_of, str_eq,
  bytes_eq, arith, inl, if◌then◌else◌,
}
use meeting_bot_service.Webhooks.Guard.{
  Address, v4, v6, is_blocked_address, Checked, Dial, PinnedUrl, is_blocked_hostname, is_blocked_ip,
  handle_request,
}
use meeting_bot_service.Webhooks.Guard.Dials.{
  IsPublic, handle_request-IsPublic, blocked_literal_dialled, mapped_unblocked,
}
use meeting_bot_service.Webhooks.Retry.{Entry, Redis, Response, status, drain_retry_queue}
use meeting_bot_service.Webhooks.Delivery.{
  Post, Webhook, deliver, build_headers, verify_signature, is_event_enabled, lstrip, rstrip,
}
use meeting_bot_service.Webhooks.Delivery.Signature.{verify_signature-build_headers}
use meeting_bot_service.Webhooks.Delivery.Fates.{entry_of, with_entry, lost_is_retried}

abbrev read_address : String → Option Address
read_address t =
    if str_eq t "10.0.0.1"
    then some (v4 167772161)
    else if str_eq t "93.184.216.34"
    then some (v4 1572395042)
    else none

-- getaddrinfo answers a literal with itself
abbrev honest : String → List String
honest h = if str_eq h "example.com" then "93.184.216.34" ∷ [] else h ∷ []

abbrev rebound : String → List String
rebound h = "93.184.216.34" ∷ []

handle_request-IsPublic_example :
    IsPublic read_address honest (handle_request read_address honest "10.0.0.1")
unfolding one_of
handle_request-IsPublic_example = handle_request-IsPublic read_address honest "10.0.0.1" (λ _. refl)

blocked_literal_dialled_example :
    handle_request read_address rebound "10.0.0.1" ≡ Dial.dialled "10.0.0.1"
unfolding is_blocked_hostname is_blocked_ip bytes_eq
blocked_literal_dialled_example =
    blocked_literal_dialled read_address rebound "10.0.0.1" "93.184.216.34" refl refl refl refl refl

-- ::ffff:127.0.0.1
mapped_unblocked_example : is_blocked_address (v6 (281470681743360 + 2130706433)) ≡ false
mapped_unblocked_example = mapped_unblocked 2130706433 (omega arith)

abbrev digest : String → String → String
digest secret content = append secret content

verify_signature-build_headers_example :
    verify_signature digest "{}" (build_headers digest (some " s3 ") "{}" "1000") "s3" ≡ true
unfolding lstrip rstrip
verify_signature-build_headers_example =
    verify_signature-build_headers digest "{}" " s3 " "1000" refl refl refl

abbrev ended : Webhook
ended = record {
  url = "https://example.com/hook";
  event_type = "meeting.completed";
  payload = "{}";
  secret = none;
  scope = "per-client";
  events_config = none;
  label = "meeting.completed";
  metadata = none;
}

abbrev pinned : PinnedUrl
pinned = record {
  url = "https://example.com/hook";
  host = "example.com";
  port = none;
  scheme = "https";
  pinned_ips = "93.184.216.34" ∷ [];
}

abbrev down : Post → Response
down p = status 503

abbrev empty : Redis
empty = record { queue = []; dead_letters = [] }

lost_is_retried_example :
    ((deliver digest (λ t. "1000") down (λ url. Checked.ok pinned) 1000 ended (some empty)).queue
      ≡ some (with_entry empty 1000 ended))
    × ((xs : List Entry) × ((drain_retry_queue
            (λ n e. status 200)
            (λ c. "HTTP")
            1060
            (with_entry empty 1000 ended)).tried
          ≡ xs ++ entry_of 1000 ended ∷ []))
unfolding is_event_enabled one_of
lost_is_retried_example =
    lost_is_retried digest (λ t. "1000") down (λ url. Checked.ok pinned) pinned 1000 1060 ended
      empty (λ n e. status 200) (λ c. "HTTP") refl refl (inl (omega arith)) (omega arith)
      (omega arith)
