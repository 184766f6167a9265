-- ===== src/Webhooks/Deliver.antt =====
-- `_deliver` of WebhookManager: the attempts of one delivery. Its answers give what the post of each
-- attempt returns or raises; the request, with its id, is the same in each.
use tftp_os.Prelude.{
  ℕ, zero, suc, ◌^◌, Bool, true, false, ◌&&◌, none, some, List, [], ◌∷◌, if◌then◌else◌, leb, ltb,
}
use tftp_os.Prelude.Text.{Text}
use tftp_os.Json.{Json}
use tftp_os.Dict.{Dict}
use tftp_os.Webhooks.{WebhookConfig, http_status, exception, WebhookDelivery, delivery_payload}

-- The post returns a status, or raises an exception with its text.
pub data Answer : Type 0 where
  answered : ℕ → Answer
  raised : Text → Answer

abbrev pub is_success : Answer → Bool
is_success (answered status_code) = leb 200 status_code && ltb status_code 300
is_success (raised t) = false

unfoldable pub new_delivery : WebhookConfig → Text → Text → Dict Text Json → WebhookDelivery
unfolding delivery_payload
new_delivery wh event delivery_id payload = record {
  delivery_id = delivery_id;
  webhook_url = wh.url;
  event = event;
  payload = delivery_payload payload event;
  success = false;
  attempts = 0;
  status_code = none;
  error = none;
  delivered_at = none;
}

-- The delivery after the attempt with this index.
unfoldable pub after : ℕ → ℕ → Answer → WebhookDelivery → WebhookDelivery
after now attempt (answered status_code) delivery =
    if is_success (answered status_code)
    then record delivery {
      attempts = suc attempt;
      status_code = some status_code;
      success = true;
      delivered_at = some now;
    }
    else record delivery {
      attempts = suc attempt;
      status_code = some status_code;
      error = some (http_status status_code);
    }
after now attempt (raised message) delivery = record delivery {
  attempts = suc attempt;
  error = some (exception message);
}

-- The attempts from this index on, so many at most; with the seconds waited between them.
unfoldable pub attempts_from : (ℕ → Answer) → ℕ → ℕ → ℕ → WebhookDelivery → WebhookDelivery × List ℕ
unfolding after
attempts_from post now attempt zero delivery = (delivery, [])
attempts_from post now attempt (suc left) delivery =
    let tried = after now attempt (post attempt) delivery in
    let rest = attempts_from post now (suc attempt) left tried in
    if is_success (post attempt)
    then (tried, [])
    else (rest.0, elim left [ zero ↦ [] | suc n ↦ 2 ^ attempt ∷ rest.1 ])

-- max(1, retry_count)
abbrev pub max_attempts : WebhookConfig → ℕ
max_attempts wh = elim wh.retry_count [ zero ↦ 1 | suc n ↦ suc n ]

unfoldable pub attempt_delivery :
    (ℕ → Answer) → ℕ → WebhookConfig → Text → Text → Dict Text Json → WebhookDelivery × List ℕ
unfolding attempts_from new_delivery
attempt_delivery post now wh event delivery_id payload =
    attempts_from post now 0 (max_attempts wh) (new_delivery wh event delivery_id payload)
