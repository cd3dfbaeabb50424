-- ===== src/Notifier/Send.antt =====
-- `SendWebhook` and the two notifications of internal/notifier/webhook.go.
use warnly.Base.{
  ℕ, Bool, ◌||◌, Option, none, some, List, [], ◌∷◌, ◌++◌, if◌then◌else◌, ltb, leb, Bytes, is_empty,
  text, length, Result, ok, err, or_err, ◌>>?◌, Action,
}
use warnly.Base.Int.{ℤ}
use warnly.Alert.{
  Alert, AlertCondition, occurrences, users, other_condition, AlertTimeframe, one_min, five_min,
  fifteen_min, one_hour, one_day, one_week, thirty_days, other_timeframe, WebhookConfig,
}
use warnly.Notifier.Secret.{Crypto, SecretError, decrypt_secret}

pub record AlertPayload : Type 0 where
  pub timestamp : ℕ
  pub alert_name : Bytes
  pub status : Bytes
  pub condition : Bytes
  pub timeframe : Bytes
  pub alert_id : ℕ
  pub project_id : ℕ
  pub team_id : ℕ
  pub threshold : ℤ
  pub high_priority : Bool

-- A POST with the JSON content type; the signature is the header X-Webhook-Signature.
pub record Request : Type 0 where
  pub url : Bytes
  pub body : Bytes
  pub signature : Option Bytes

pub record Response : Type 0 where
  pub status_code : ℕ
  pub body : Option Bytes

-- encoding/json, net/http and crypto/hmac with hex; `respond` is the answer to the n-th request.
pub record Net : Type 0 where
  pub crypto : Crypto
  pub marshal : AlertPayload → Option Bytes
  pub valid_url : Bytes → Bool
  pub hmac_hex : Bytes → Bytes → Bytes
  pub respond : ℕ → Request → Option Response

pub data SendError : Type 0 where
  marshal_payload create_request send_request read_body : SendError
  bad_secret : SecretError → SendError
  non_2xx : ℕ → Bytes → SendError

-- The requests that went out.
pub record Outbox : Type 0 where
  pub requests : List Request

unfoldable pub condition_name : AlertCondition → Bytes
condition_name occurrences = text "occurrences"
condition_name users = text "users_affected"
condition_name (other_condition n) = text "unknown"

unfoldable pub timeframe_name : AlertTimeframe → Bytes
timeframe_name one_min = text "1m"
timeframe_name five_min = text "5m"
timeframe_name fifteen_min = text "15m"
timeframe_name one_hour = text "1h"
timeframe_name one_day = text "1d"
timeframe_name one_week = text "1w"
timeframe_name thirty_days = text "30d"
timeframe_name (other_timeframe n) = text "unknown"

abbrev as_secret_error : {A : Type 0} → Result SecretError A → Result SendError A
as_secret_error (ok a) = ok a
as_secret_error (err e) = err (bad_secret e)

module _ (net : Net) (key : Bytes) where
  unfoldable pub signature_for : WebhookConfig → Bytes → Result SendError (Option Bytes)
  signature_for config body =
      if is_empty config.secret_encrypted
      then ok none
      else (as_secret_error (decrypt_secret net.crypto key config.secret_encrypted) >>? λ secret.
          ok (some (net.hmac_hex body secret)))

  unfoldable pub build_request : WebhookConfig → AlertPayload → Result SendError Request
  unfolding signature_for
  build_request config payload = or_err (net.marshal payload) marshal_payload >>? λ body.
      (if net.valid_url config.url then ok tt else err create_request) >>? λ (_ : Unit {0}).
      signature_for config body >>? λ signature.
      ok (record { url = config.url; body = body; signature = signature })

  unfoldable pub check_response : Option Response → Result SendError (Unit {0})
  check_response none = err send_request
  check_response (some r) =
      if ltb r.status_code 200 || leb 300 r.status_code
      then elim r.body [ none ↦ err read_body | some b ↦ err (non_2xx r.status_code b) ]
      else ok tt

  unfoldable pub post : Result SendError Request → Action Outbox SendError (Unit {0})
  unfolding check_response
  post (err e) out = (err e, out)
  post (ok request) out = (
    check_response (net.respond (length out.requests) request),
    record { requests = out.requests ++ request ∷ [] },
  )

  unfoldable pub send_webhook : WebhookConfig → AlertPayload → Action Outbox SendError (Unit {0})
  unfolding build_request post
  send_webhook config payload out = post (build_request config payload) out

  -- The payload of `SendAlertTriggered` and `SendAlertResolved`, which differ in the status.
  unfoldable pub alert_payload : Bytes → ℕ → Alert → AlertPayload
  unfolding condition_name timeframe_name
  alert_payload status now alert = record {
    timestamp = now;
    alert_name = alert.rule_name;
    status = status;
    condition = condition_name alert.condition;
    timeframe = timeframe_name alert.timeframe;
    alert_id = alert.id;
    project_id = alert.project_id;
    team_id = alert.team_id;
    threshold = alert.threshold;
    high_priority = alert.high_priority;
  }

  unfoldable pub send_alert_triggered :
      ℕ → Alert → WebhookConfig → Action Outbox SendError (Unit {0})
  unfolding alert_payload send_webhook
  send_alert_triggered now alert config =
      send_webhook config (alert_payload (text "triggered") now alert)

  unfoldable pub send_alert_resolved :
      ℕ → Alert → WebhookConfig → Action Outbox SendError (Unit {0})
  unfolding alert_payload send_webhook
  send_alert_resolved now alert config =
      send_webhook config (alert_payload (text "resolved") now alert)
