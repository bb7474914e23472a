-- ===== src/Tests/WebhookRuns.antt =====
-- The theorems on webhooks/retry.py, applied to a queue of two entries.
use meeting_bot_service.Prelude.{ℕ, String, none, [], ◌∷◌, ◌++◌, ◌≡◌, arith}
use meeting_bot_service.Webhooks.Retry.{
  Entry, entry, corrupt, Redis, Response, keep_newest, dead_letter_max, drain_retry_queue,
}
use meeting_bot_service.Webhooks.Retry.Sweep.{
  fates, gather, left_of, letters_of, count_processed, drain-fates,
}

abbrev letter_of : ℕ → Entry
letter_of attempt = record {
  url = "https://example.com/hook";
  payload = "{}";
  webhook_secret = none;
  label = "meeting.completed";
  attempt = attempt;
  next_retry_at = 9360;
  created_at = 0;
  metadata = none;
}

-- one corrupt text, an entry at its last attempt, and a fresh one
abbrev waiting : Redis
waiting = record {
  queue = corrupt "{" ∷ entry (letter_of 3) ∷ entry (letter_of 0) ∷ [];
  dead_letters = [];
}

-- every receiver is down
abbrev outage : ℕ → Entry → Response
outage n e = Response.status 503

abbrev http_error_text : ℕ → String
http_error_text code = "HTTP error"

drain-fates_example :
    let after = drain_retry_queue outage http_error_text 10000 waiting in
    let fs = fates outage http_error_text 10000 0 waiting.queue in
    (after.redis.queue ≡ gather left_of fs)
    × (after.redis.dead_letters ≡ keep_newest dead_letter_max ([] ++ gather letters_of fs))
    × (after.processed ≡ count_processed fs)
drain-fates_example = drain-fates outage http_error_text 10000 waiting (omega arith)
