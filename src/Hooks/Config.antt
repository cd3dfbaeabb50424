-- ===== src/Hooks/Config.antt =====
-- The methods of internal/svc/notification/notification.go, on the tables and the network.
use warnly.Base.{
  ℕ, Bool, true, false, Option, none, some, List, [], ◌∷◌, if◌then◌else◌, Bytes, text, is_empty,
  find?, Result, ok, err, Action, pure, fail, ◌>>=◌, ◌>>◌,
}
use warnly.Base.Int.{pos}
use warnly.Alert.{NotificationChannel, WebhookConfig, webhook, other_channel}
use warnly.Db.Tables.{Db, Env, DbError, M, not_found, read_clock}
use warnly.Db.Statements.{
  list_teams, list_channels, create_channel, get_webhook, create_webhook, update_webhook,
}
use warnly.Notifier.Secret.{SecretError, encrypt_secret, decrypt_secret}
use warnly.Notifier.Send.{Net, SendError, Outbox, AlertPayload, send_webhook}
use warnly.Service.Alerts.{has_access}

pub record Site : Type 0 where
  pub db : Db
  pub outbox : Outbox

pub data HookError : Type 0 where
  stored : DbError → HookError
  secret_error : SecretError → HookError
  send_failed : SendError → HookError

abbrev pub H : Type 0 → Type 0
H A = Action Site HookError A

abbrev pub with_db : {A : Type 0} → Result DbError A × Db → Site → Result HookError A × Site
with_db (ok a, db) w = (ok a, record w { db = db })
with_db (err e, db) w = (err (stored e), record w { db = db })

-- A call of a store, its error returned.
unfoldable pub in_store : {A : Type 0} → M A → H A
in_store m w = with_db (m w.db) w

-- A call whose `ErrNotFound` is looked at.
abbrev pub absent : {A : Type 0} → Result DbError A × Db → Result DbError (Option A) × Db
absent (ok a, db) = (ok (some a), db)
absent (err not_found, db) = (ok none, db)
absent (err e, db) = (err e, db)

unfoldable pub if_found : {A : Type 0} → M A → M (Option A)
if_found m db = absent (m db)

abbrev pub with_outbox :
    {A : Type 0} → Result SendError A × Outbox → Site → Result HookError A × Site
with_outbox (ok a, out) w = (ok a, record w { outbox = out })
with_outbox (err e, out) w = (err (send_failed e), record w { outbox = out })

unfoldable pub sending : {A : Type 0} → Action Outbox SendError A → H A
sending m w = with_outbox (m w.outbox) w

abbrev pub secret_result : Result SecretError Bytes → Result HookError Bytes
secret_result (ok a) = ok a
secret_result (err e) = err (secret_error e)

pub record SaveWebhookConfigRequest : Type 0 where
  pub user_id : ℕ
  pub url : Bytes
  pub secret : Bytes
  pub team_id : ℕ

pub record WebhookConfigWithSecret : Type 0 where
  pub url : Bytes
  pub secret : Bytes

unfoldable pub is_webhook : NotificationChannel → Bool
is_webhook c = elim c.channel_type [ webhook ↦ true | other_channel t ↦ false ]

-- The first webhook channel: the loops with `break`.
unfoldable pub webhook_channel : List NotificationChannel → Option NotificationChannel
unfolding is_webhook
webhook_channel channels = find? is_webhook channels

unfoldable pub test_payload : ℕ → ℕ → AlertPayload
test_payload team_id now = record {
  timestamp = now;
  alert_name = text "Test Alert";
  status = text "test";
  condition = text "occurrences";
  timeframe = text "1h";
  alert_id = 0;
  project_id = 0;
  team_id = team_id;
  threshold = pos 100;
  high_priority = false;
}

-- The service with its stores and its notifier; `nonce` is what the random source gives after so
-- many statements.
pub record NotificationService : Type 0 where
  pub env : Env
  pub net : Net
  pub key : Bytes
  pub nonce : ℕ → Option Bytes

module _ (svc : NotificationService) where
  -- With no URL, the URL and the secret of the first webhook channel's configuration are emptied.
  unfoldable pub clear_config : ℕ → Option WebhookConfig → H (Unit {0})
  clear_config now none = pure tt
  clear_config now (some config) =
      in_store (
        update_webhook svc.env
          (record config { updated_at = now; url = []; secret_encrypted = [] }))

  unfoldable pub clear_channel : ℕ → Option NotificationChannel → H (Unit {0})
  unfolding clear_config
  clear_channel now none = pure tt
  clear_channel now (some c) = do
    config ← in_store (if_found (get_webhook svc.env c.id))
    clear_config now config

  unfoldable pub channel_or_new : ℕ → ℕ → Option NotificationChannel → H NotificationChannel
  channel_or_new now team_id (some c) = pure c
  channel_or_new now team_id none = in_store (
      create_channel svc.env (record {
        created_at = now;
        updated_at = now;
        name = text "Default Webhook";
        channel_type = webhook;
        team_id = team_id;
        id = 0;
        enabled = true;
      }))

  unfoldable pub sealed_secret : Bytes → H Bytes
  sealed_secret [] w = (ok [], w)
  sealed_secret (c ∷ cs) w = (
    secret_result (encrypt_secret svc.net.crypto svc.key (svc.nonce w.db.statements) (c ∷ cs)),
    w,
  )

  -- A configuration that is there is marked as verified, and one that is created is not.
  unfoldable pub put_config : ℕ → ℕ → Bytes → Bytes → Option WebhookConfig → H WebhookConfig
  put_config now channel_id url sealed none = in_store (
      create_webhook svc.env (record {
        created_at = now;
        updated_at = now;
        verified_at = none;
        url = url;
        secret_encrypted = sealed;
        id = 0;
        channel_id = channel_id;
      }))
  put_config now channel_id url sealed (some config) =
      let changed = record config {
        updated_at = now;
        url = url;
        secret_encrypted = sealed;
        verified_at = some now;
      } in
      in_store (update_webhook svc.env changed) >>= λ _. pure changed

  unfoldable pub store_config : SaveWebhookConfigRequest → ℕ → H (Unit {0})
  unfolding webhook_channel channel_or_new sealed_secret put_config test_payload
  store_config req now = do
    channels ← in_store (list_channels svc.env req.team_id)
    channel ← channel_or_new now req.team_id (webhook_channel channels)
    sealed ← sealed_secret req.secret
    found ← in_store (if_found (get_webhook svc.env channel.id))
    config ← put_config now channel.id req.url sealed found
    later ← in_store (read_clock svc.env)
    sending (send_webhook svc.net svc.key config (test_payload req.team_id later))

  unfoldable pub clear : ℕ → ℕ → H (Unit {0})
  unfolding webhook_channel clear_channel
  clear team_id now = do
    channels ← in_store (list_channels svc.env team_id)
    clear_channel now (webhook_channel channels)

  abbrev pub allowed : Bool → H (Unit {0})
  allowed true = pure tt
  allowed false = fail (stored not_found)

  unfoldable pub save_webhook_config : SaveWebhookConfigRequest → H (Unit {0})
  unfolding store_config clear
  save_webhook_config req = do
    teams ← in_store (list_teams svc.env req.user_id)
    allowed (has_access teams req.team_id)
    now ← in_store (read_clock svc.env)
    if is_empty req.url then clear req.team_id now else store_config req now

  unfoldable pub config_of_channel : Option NotificationChannel → M WebhookConfig
  config_of_channel none db = (err not_found, db)
  config_of_channel (some c) db = get_webhook svc.env c.id db

  -- `GetWebhookConfigByTeamID`.
  unfoldable pub get_webhook_config : ℕ → M WebhookConfig
  unfolding webhook_channel config_of_channel
  get_webhook_config team_id = do
    channels ← list_channels svc.env team_id
    config_of_channel (webhook_channel channels)

  unfoldable pub opened_secret : Bytes → H Bytes
  opened_secret [] w = (ok [], w)
  opened_secret (c ∷ cs) w = (secret_result (decrypt_secret svc.net.crypto svc.key (c ∷ cs)), w)

  unfoldable pub with_secret : Option WebhookConfig → H WebhookConfigWithSecret
  unfolding opened_secret
  with_secret none = pure (record { url = []; secret = [] })
  with_secret (some config) = do
    secret ← opened_secret config.secret_encrypted
    pure (record { url = config.url; secret = secret })

  -- `GetWebhookConfigWithSecretByTeamID`.
  unfoldable pub get_webhook_config_with_secret : ℕ → H WebhookConfigWithSecret
  unfolding get_webhook_config with_secret
  get_webhook_config_with_secret team_id = do
    config ← in_store (if_found (get_webhook_config team_id))
    with_secret config
