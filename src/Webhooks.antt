-- ===== src/Webhooks.antt =====
-- tftpos/webhooks.py: the configuration of a webhook, the request of a delivery, and its record.
-- `json.dumps` and the HMAC are parameters; what the HTTP library answers to a request is an
-- argument of the delivery (Webhooks/Deliver.antt).
pub mod Deliver
pub mod Attempts
pub mod Manager
pub mod Sent
use tftp_os.Prelude.{
  ℕ, Bool, true, false, ◌&&◌, ◌||◌, Option, none, some, List, [], ◌∷◌, ◌++◌, if◌then◌else◌, codes,
  text_eq, truthy, leb, ltb, ◌==◌,
}
use tftp_os.Prelude.Text.{Text}
use tftp_os.Result.{Result, ok, raise, value_error}
use tftp_os.Json.{Json, text}
use tftp_os.Dict
use tftp_os.Dict.{Dict}
use tftp_os.Dict.Laws.{among}

pub record WebhookConfig : Type 0 where
  pub url : Text
  pub events : List Text
  pub secret : Text
  pub retry_count : ℕ
  pub timeout : ℕ

-- The construction of a configuration, by the scheme that `urlparse` finds in a URL.
unfoldable pub new_webhook : (Text → Text) → WebhookConfig → Result WebhookConfig
new_webhook scheme wh =
    if scheme wh.url == codes "http" || scheme wh.url == codes "https"
    then ok wh
    else raise value_error

-- The error text of a delivery, by what it is made of: f"HTTP {status_code}", or str(exc).
pub data Failure : Type 0 where
  http_status : ℕ → Failure
  exception : Text → Failure

pub record WebhookDelivery : Type 0 where
  pub delivery_id : Text
  pub webhook_url : Text
  pub event : Text
  pub payload : Dict Text Json
  pub success : Bool
  pub attempts : ℕ
  pub status_code : Option ℕ
  pub error : Option Failure
  pub delivered_at : Option ℕ

-- What the outside code does: `json.dumps` of a payload, and the HMAC of a secret and a payload.
pub record Library : Type 0 where
  pub dumps : Dict Text Json → Text
  pub hmac_sha256 : Text → Text → Text

unfoldable pub compute_signature : Library → Text → Text → Text
compute_signature lib payload_bytes secret = lib.hmac_sha256 secret payload_bytes

unfoldable pub verify_signature : Library → Text → Text → Text → Bool
unfolding compute_signature
verify_signature lib payload_bytes secret signature =
    compute_signature lib payload_bytes secret == signature

-- What is posted.
pub record Request : Type 0 where
  pub url : Text
  pub data_bytes : Text
  pub headers : Dict Text Text
  pub timeout : ℕ

unfoldable pub delivery_payload : Dict Text Json → Text → Dict Text Json
delivery_payload payload event = Dict.put (codes "event") (text event) payload

unfoldable pub headers_of : Library → WebhookConfig → Text → Text → Text → Dict Text Text
unfolding compute_signature
headers_of lib wh event delivery_id payload_bytes =
    (codes "Content-Type", codes "application/json")
    ∷ (codes "X-TftpOS-Event", event)
    ∷ (codes "X-TftpOS-Delivery", delivery_id)
    ∷ (if truthy wh.secret
        then (
          codes "X-TftpOS-Signature",
          codes "sha256=" ++ compute_signature lib payload_bytes wh.secret,
        )
          ∷ []
        else [])

unfoldable pub request_of : Library → WebhookConfig → Text → Text → Dict Text Json → Request
unfolding headers_of delivery_payload
request_of lib wh event delivery_id payload =
    let payload_bytes = lib.dumps (delivery_payload payload event) in
    record {
      url = wh.url;
      data_bytes = payload_bytes;
      headers = headers_of lib wh event delivery_id payload_bytes;
      timeout = wh.timeout;
    }

-- The test of the events that a webhook is sent: a webhook without events is sent all.
unfoldable pub subscribed : Text → WebhookConfig → Bool
unfolding among
subscribed event wh = elim wh.events [ [] ↦ true | e ∷ es ↦ among event (e ∷ es) ]
