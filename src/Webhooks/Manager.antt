-- ===== src/Webhooks/Manager.antt =====
-- WebhookManager: the events and tests that it sends, and the record that it keeps of them. The
-- deliveries of a manager stand in the order in which they end; the n-th of them has the n-th id,
-- time and answers of the surroundings. The pool of threads is the list of its tasks.
use tftp_os.Prelude.{
  ℕ, suc, Bool, Option, none, some, List, [], ◌∷◌, ◌++◌, if◌then◌else◌, codes, text_eq, truthy,
  filter, ◌==◌,
}
use mathlib.Core.List.{reverse}
use tftp_os.Prelude.Recent.{keep_last, take}
use tftp_os.Prelude.Text.{Text}
use tftp_os.Json.{Json, num, text}
use tftp_os.Dict.{Dict}
use tftp_os.Dict.Laws.{among}
use tftp_os.Webhooks.{WebhookConfig, WebhookDelivery, Library, Request, request_of, subscribed}
use tftp_os.Webhooks.Deliver.{Answer, attempt_delivery}

pub record WebhookManager : Type 0 where
  pub webhooks : List WebhookConfig
  pub supported_events : List Text
  -- Whether there is a callback, and the deliveries that it was given.
  pub has_callback : Bool
  pub notified : List WebhookDelivery
  pub deliveries : List WebhookDelivery
  -- The number of deliveries made, in all.
  pub made : ℕ

abbrev pub max_deliveries : ℕ
max_deliveries = 500

abbrev pub default_events : List Text
default_events =
    codes "provision.started"
    ∷ codes "provision.complete"
    ∷ codes "provision.failed"
    ∷ codes "netboot.disabled"
    ∷ []

-- supported_events or SUPPORTED_EVENTS
unfoldable pub init : List WebhookConfig → Bool → Option (List Text) → WebhookManager
init webhooks has_callback supported_events = record {
  webhooks = webhooks;
  supported_events = elim supported_events [
    | none ↦ default_events
    | some events ↦ elim events [ [] ↦ default_events | e ∷ es ↦ e ∷ es ]
  ];
  has_callback = has_callback;
  notified = [];
  deliveries = [];
  made = 0;
}

-- The callback is told; what it raises is only logged.
unfoldable pub record_delivery : WebhookDelivery → WebhookManager → WebhookManager
unfolding keep_last
record_delivery delivery m = record m {
  deliveries = keep_last max_deliveries (m.deliveries ++ delivery ∷ []);
  notified = if m.has_callback then m.notified ++ delivery ∷ [] else m.notified;
  made = suc m.made;
}

-- What happens around a manager: the ids, the times, and the answer to each attempt of a request.
pub record Surroundings : Type 0 where
  pub lib : Library
  pub ids : ℕ → Text
  pub times : ℕ → ℕ
  pub post : Request → ℕ → Answer

-- One task of the pool: a webhook, an event and its payload.
pub record Task : Type 0 where
  pub webhook : WebhookConfig
  pub event : Text
  pub payload : Dict Text Json

-- The loop of `fire`, from a number of dispatched webhooks on: their number, and the tasks that the
-- pool is given.
unfoldable pub submit_each : Text → Dict Text Json → List WebhookConfig → ℕ → ℕ × List Task
unfolding subscribed
submit_each event payload [] dispatched = (dispatched, [])
submit_each event payload (wh ∷ webhooks) dispatched =
    let skipped = submit_each event payload webhooks dispatched in
    let (total, tasks) = submit_each event payload webhooks (suc dispatched) in
    if subscribed event wh
    then (total, record { webhook = wh; event = event; payload = payload } ∷ tasks)
    else skipped

-- The number of the webhooks dispatched, and the tasks that the pool was given.
unfoldable pub fire : Text → Dict Text Json → WebhookManager → ℕ × List Task
unfolding among submit_each
fire event payload m =
    if among event m.supported_events then submit_each event payload m.webhooks 0 else (0, [])

abbrev pub test_payload : ℕ → Dict Text Json
test_payload now =
    (codes "event", text (codes "test"))
    ∷ (codes "message", text (codes "TftpOS webhook test"))
    ∷ (codes "timestamp", num now)
    ∷ []

unfoldable pub test_tasks : ℕ → List WebhookConfig → List Task
test_tasks now [] = []
test_tasks now (wh ∷ webhooks) =
    record { webhook = wh; event = codes "test"; payload = test_payload now }
    ∷ test_tasks now webhooks

-- The webhooks of a URL, or all.
unfoldable pub targets : Option Text → List WebhookConfig → List WebhookConfig
targets none webhooks = webhooks
targets (some url) webhooks = if truthy url then filter (λ wh. wh.url == url) webhooks else webhooks

module _ (around : Surroundings) where
  unfoldable pub deliver : Task → WebhookManager → WebhookManager × WebhookDelivery
  unfolding attempt_delivery request_of record_delivery
  deliver t m =
      let delivery_id = around.ids m.made in
      let request = request_of around.lib t.webhook t.event delivery_id t.payload in
      let delivery =
        (attempt_delivery (around.post request) (around.times m.made) t.webhook t.event delivery_id
          t.payload).0 in
      (record_delivery delivery m, delivery)

  -- The loop of `send_test`, and what the pool does with its tasks, one after the other:
  -- self._deliver for each.
  unfoldable pub deliver_each : List Task → WebhookManager → WebhookManager × List WebhookDelivery
  unfolding deliver
  deliver_each [] m = (m, [])
  deliver_each (t ∷ tasks) m =
      let (m', delivery) = deliver t m in
      let (m'', results) = deliver_each tasks m' in (m'', delivery ∷ results)

  -- The loop of `fire_sync`.
  unfoldable pub send_each :
      Text
      → Dict Text Json
      → List WebhookConfig
      → WebhookManager
      → WebhookManager × List WebhookDelivery
  unfolding deliver subscribed
  send_each event payload [] m = (m, [])
  send_each event payload (wh ∷ webhooks) m =
      let skipped = send_each event payload webhooks m in
      let (m', delivery) = deliver (record { webhook = wh; event = event; payload = payload }) m in
      let (m'', results) = send_each event payload webhooks m' in
      if subscribed event wh then (m'', delivery ∷ results) else skipped

  unfoldable pub fire_sync :
      Text → Dict Text Json → WebhookManager → WebhookManager × List WebhookDelivery
  unfolding among send_each
  fire_sync event payload m =
      if among event m.supported_events then send_each event payload m.webhooks m else (m, [])

  unfoldable pub send_test :
      ℕ → Option Text → WebhookManager → WebhookManager × List WebhookDelivery
  unfolding deliver_each test_tasks targets
  send_test now webhook_url m = deliver_each (test_tasks now (targets webhook_url m.webhooks)) m

unfoldable pub get_recent_deliveries : ℕ → WebhookManager → List WebhookDelivery
unfolding take
get_recent_deliveries limit m = take limit (reverse m.deliveries)
