-- ===== src/Tests/Hooks.antt =====
-- tftpos/webhooks.py with two webhooks, of which one is sent all events, and a server that answers
-- each request with 500 once.
use tftp_os.Prelude.{
  ℕ, zero, suc, ◌+◌, ◌≡◌, arith, true, none, List, [], ◌∷◌, ◌++◌, codes, text_eq, map, filter,
  length, if◌then◌else◌,
}
use mathlib.Core.List.{reverse}
use tftp_os.Prelude.Recent.{take, keep_last}
use tftp_os.Prelude.Text.{Text}
use tftp_os.Dict.Laws.{among}
use tftp_os.Webhooks.{WebhookConfig, subscribed}
use tftp_os.Webhooks.Deliver.{Answer, answered, max_attempts, attempt_delivery}
use tftp_os.Webhooks.Attempts.{Ended, attempt_delivery-Ended}
use tftp_os.Webhooks.Manager.{
  WebhookManager, Surroundings, max_deliveries, init, deliver_each, fire, fire_sync,
  get_recent_deliveries,
}
use tftp_os.Webhooks.Sent.{fire-fire_sync, fire_sync-recent}

abbrev webhook : Text → List Text → WebhookConfig
webhook url events = record {
  url = url;
  events = events;
  secret = codes "s";
  retry_count = 3;
  timeout = 10;
}

abbrev answers : ℕ → Answer
answers zero = answered 500
answers (suc n) = answered 200

attempt_delivery-Ended_example :
    Ended answers 0
      (max_attempts (webhook (codes "http://a") []))
      (attempt_delivery answers 5 (webhook (codes "http://a") []) (codes "test") (codes "id") [])
attempt_delivery-Ended_example =
    attempt_delivery-Ended answers 5 (webhook (codes "http://a") []) (codes "test") (codes "id") []

abbrev around : Surroundings
around = record {
  lib = record { dumps = λ d. codes "{}"; hmac_sha256 = λ k t. k ++ t };
  ids = λ n. n ∷ [];
  times = λ n. 100 + n;
  post = λ request n. answers n;
}

abbrev manager : WebhookManager
manager =
    init
      (webhook (codes "http://a") []
        ∷ webhook (codes "http://b") (codes "provision.failed" ∷ [])
        ∷ [])
      true none

fire-fire_sync_example :
    (fire_sync around (codes "provision.started") [] manager
      ≡ deliver_each around (fire (codes "provision.started") [] manager).1 manager)
    × (length (fire_sync around (codes "provision.started") [] manager).1
        ≡ (fire (codes "provision.started") [] manager).0)
fire-fire_sync_example = fire-fire_sync around (codes "provision.started") [] manager

fire_sync-recent_example :
    (map (λ d. d.webhook_url) (fire_sync around (codes "provision.failed") [] manager).1 ≡ (
      if among (codes "provision.failed") manager.supported_events
      then map (λ wh. wh.url) (filter (subscribed (codes "provision.failed")) manager.webhooks)
      else []))
    × (get_recent_deliveries 1 (fire_sync around (codes "provision.failed") [] manager).0
        ≡ take 1 (
            reverse (
              keep_last max_deliveries (
                manager.deliveries ++ (fire_sync around (codes "provision.failed") [] manager).1))))
unfolding init
fire_sync-recent_example =
    fire_sync-recent around (codes "provision.failed") [] 1 manager (omega arith)
