-- ===== src/Webhooks/Delivery/Fates.antt =====
-- A delivery that gets no final answer, and the sweep that tries it again.
use meeting_bot_service.Prelude.{
  ℕ, suc, ◌+◌, ◌≤◌, ◌≡◌, refl, ap, ◌∙◌, Bool, true, false, not, ◌&&◌, ◌||◌, ◌==◌, String, Option,
  some, List, [], ◌∷◌, ◌++◌, length, ltb, leb, str_eq, ◌⊎◌, arith, if◌then◌else◌,
}
use meeting_bot_service.Webhooks.Guard.{Checked, PinnedUrl}
use meeting_bot_service.Webhooks.Retry.{
  Entry, Item, entry, Redis, Response, status, transport_error, Drain, max_age_seconds, deliver_one,
  after_try, drain_item, drain_items, drain_retry_queue, enqueue,
}
use meeting_bot_service.Webhooks.Delivery.{
  DeliveryResult, Post, Webhook, Delivered, put_off, take_response, unsent, post_of, send_guarded,
  deliver, is_event_enabled,
}

-- no final answer: an exception of the transport, a server's error, or too many requests
abbrev pub IsRetryable : Response → Type 0
IsRetryable (transport_error text) = Unit
IsRetryable (status c) = (500 ≤ c) ⊎ (c ≡ 429)

-- the entry that a delivery is put off with
abbrev pub entry_of : ℕ → Webhook → Entry
entry_of now h = record {
  url = h.url;
  payload = h.payload;
  webhook_secret = h.secret;
  label = h.label;
  attempt = 0;
  next_retry_at = now + 60;
  created_at = now;
  metadata = h.metadata;
}

abbrev pub with_entry : Redis → ℕ → Webhook → Redis
with_entry q now h = record q { queue = q.queue ++ entry (entry_of now h) ∷ [] }

after_try-tried :
    (d : Drain) (e : Entry) (clock : ℕ) (out : Bool × Option ℕ × Option String)
    → (after_try d e clock out).tried ≡ d.tried
unfolding after_try
after_try-tried d e clock (true, code, error) = refl
after_try-tried d e clock (false, code, error) = ground arith

module _ (transport : ℕ → Entry → Response) (http_error : ℕ → String) (clock : ℕ) where
  drain_items-append :
      (is : List Item) (i : Item) (d : Drain)
      → drain_items transport http_error clock d (is ++ i ∷ [])
        ≡ drain_item transport http_error clock (drain_items transport http_error clock d is) i
  unfolding drain_items
  drain_items-append [] i d = refl
  drain_items-append (j ∷ is) i d =
      drain_items-append is i (drain_item transport http_error clock d j)

  drain_item-tried :
      (d : Drain) (e : Entry)
      → ltb (e.created_at + max_age_seconds) clock ≡ false
      → ltb clock e.next_retry_at ≡ false
      → (drain_item transport http_error clock d (entry e)).tried ≡ d.tried ++ e ∷ []
  unfolding drain_item
  drain_item-tried d e young due = rw young (
      rw due (
        after_try-tried (record d { processed = suc d.processed; tried = d.tried ++ e ∷ [] }) e
          clock (deliver_one http_error (transport (length d.tried) e))))

  last_tried :
      (q : Redis) (e : Entry)
      → ltb (e.created_at + max_age_seconds) clock ≡ false
      → ltb clock e.next_retry_at ≡ false
      → (xs : List Entry) × ((drain_retry_queue transport http_error clock
            (record q { queue = q.queue ++ entry e ∷ [] })).tried
          ≡ xs ++ e ∷ [])
  unfolding drain_retry_queue
  last_tried q e young due =
      let start : Drain = record {
        redis = record q { queue = [] };
        requeue = [];
        processed = 0;
        tried = [];
      } in
      let d = drain_items transport http_error clock start q.queue in
      (
        d.tried,
        ap (λ (x : Drain). x.tried) (drain_items-append q.queue (entry e) start)
            ∙ drain_item-tried d e young due,
      )

module _ (hexdigest : String → String → String) (timestamp : ℕ → String)
    (transport : Post → Response) where
  retryable_puts_off :
      (now : ℕ) (h : Webhook) (q : Redis) (posts : List Post) (r : Response)
      → IsRetryable r
      → (take_response now h (some q) posts r).queue ≡ some (with_entry q now h)
  unfolding take_response put_off enqueue
  retryable_puts_off now h q posts (transport_error text) again = refl
  retryable_puts_off now h q posts (status c) again =
      let large : ltb c 300 ≡ false = ground (arith, again) in
      let put : (leb 500 c || c == 429) ≡ true = ground (arith, again) in rw large (rw put refl)

  -- A delivery is not lost where the receiver gives no final answer. Where the event is let through and the
  -- guard passes the url, and the transport raises or answers 429 or a server's error, the queue has the
  -- delivery as its last entry; and a sweep of that queue from a minute to a day later tries it, after the
  -- entries that it tries before.
  pub lost_is_retried :
      (guard : String → Checked PinnedUrl) (pinned : PinnedUrl) (now clock : ℕ) (h : Webhook)
      (q : Redis) (again : ℕ → Entry → Response) (http_error : ℕ → String)
      → (str_eq h.scope "per-client" && not (is_event_enabled h.events_config h.event_type)) ≡ false
      → guard h.url ≡ Checked.ok pinned
      → IsRetryable (transport (post_of hexdigest timestamp transport now h))
      → now + 60 ≤ clock
      → clock ≤ now + max_age_seconds
      → ((deliver hexdigest timestamp transport guard now h (some q)).queue
          ≡ some (with_entry q now h))
        × ((xs : List Entry) × ((drain_retry_queue again http_error clock
                (with_entry q now h)).tried
              ≡ xs ++ entry_of now h ∷ []))
  unfolding deliver send_guarded
  lost_is_retried guard pinned now clock h q again http_error enabled passes unsure due young =
      let sent : Delivered =
        send_guarded hexdigest timestamp transport now h (some q) (guard h.url) in
      let allowed =
        ap (λ b. if b then unsent (some q) DeliveryResult.suppressed else sent) enabled in
      let guarded = ap (send_guarded hexdigest timestamp transport now h (some q)) passes in
      (
        ap (λ (d : Delivered). d.queue) (allowed ∙ guarded)
            ∙ retryable_puts_off now h q (post_of hexdigest timestamp transport now h ∷ [])
                (transport (post_of hexdigest timestamp transport now h)) unsure,
        last_tried again http_error clock q (entry_of now h) (ground (arith, young))
            (ground (arith, due)),
      )
