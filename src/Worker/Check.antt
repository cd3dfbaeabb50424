-- ===== src/Worker/Check.antt =====
-- `processAlerts` and what it calls.
use warnly.Base.{
  ℕ, ◌+◌, ◌-◌, ◌*◌, Bool, true, false, not, ◌&&◌, ◌||◌, Option, none, some, List, [], ◌∷◌, map,
  if◌then◌else◌, ltb, Bytes, filter, any, Result, ok, err, Action, pure, fail, ◌>>=◌, ◌>>◌,
}
use warnly.Alert.{
  Alert, active, triggered, AlertCondition, occurrences, users, other_condition, timeframe_duration,
  is_active, is_triggered, to_uint64, minute, ChannelType, webhook, other_channel,
  NotificationChannel, WebhookConfig, NotificationType, triggered_type, resolved_type, pending,
  sent, failed, AlertNotification,
}
use warnly.Locks.Table.{AlertLock}
use warnly.Db.Tables.{Db, Env, DbError, M, Issue, read_clock}
use warnly.Db.Statements.{
  list_alerts, update_alert, list_channels, get_webhook, create_notification, update_notification,
  acquire_lock, release_lock, cleanup_locks, list_issues,
}
use warnly.Notifier.Send.{Net, SendError, Outbox, send_alert_triggered, send_alert_resolved}

-- internal/warnly/issue.go, the fields that the worker reads; the counts are uint64.
pub record IssueMetrics : Type 0 where
  pub gid : ℕ
  pub times_seen : ℕ
  pub user_count : ℕ

pub record MetricsCriteria : Type 0 where
  pub project_ids : List ℕ
  pub group_ids : List ℕ
  pub from : ℕ
  pub to : ℕ

pub record World : Type 0 where
  pub db : Db
  pub outbox : Outbox

pub data WorkerError : Type 0 where
  db_error : DbError → WorkerError
  send_error : SendError → WorkerError
  metrics_failed not_verified unsupported_channel : WorkerError

-- The worker with what it is built from: `metrics` is the answer of the analytics store, `message`
-- the text of an error.
pub record AlertWorker : Type 0 where
  pub env : Env
  pub net : Net
  pub key : Bytes
  pub instance_id : Bytes
  pub metrics : MetricsCriteria → Option (List IssueMetrics)
  pub message : WorkerError → Bytes

abbrev pub W : Type 0 → Type 0
W A = Action World WorkerError A

abbrev pub lift_db : {A : Type 0} → Result DbError A × Db → World → Result WorkerError A × World
lift_db (ok a, db) w = (ok a, record w { db = db })
lift_db (err e, db) w = (err (db_error e), record w { db = db })

-- A call of a store.
unfoldable pub on_db : {A : Type 0} → M A → W A
on_db m w = lift_db (m w.db) w

abbrev pub lift_send :
    {A : Type 0} → Result SendError A × Outbox → World → Result WorkerError A × World
lift_send (ok a, out) w = (ok a, record w { outbox = out })
lift_send (err e, out) w = (err (send_error e), record w { outbox = out })

unfoldable pub on_net : {A : Type 0} → Action Outbox SendError A → W A
on_net m w = lift_send (m w.outbox) w

-- A call whose error is looked at and not returned.
unfoldable pub attempt : {A : Type 0} → W A → W (Result WorkerError A)
attempt m w = let (r, w') = m w in (ok r, w')

-- A call whose error is only logged.
unfoldable pub logged : {A : Type 0} → W A → W (Unit {0})
logged m w = let (r, w') = m w in (ok tt, w')

-- `defer`: the second call is made after the first however that ends; its error is logged.
unfoldable pub deferring : {A : Type 0} → W (Unit {0}) → W A → W A
deferring last m w = let (r, w') = m w in (r, (last w').1)

-- The value that a metric is compared by.
unfoldable pub metric_value : AlertCondition → IssueMetrics → ℕ
metric_value occurrences m = m.times_seen
metric_value users m = m.user_count
metric_value (other_condition n) m = m.times_seen

unfoldable pub exceeds : Alert → List IssueMetrics → Bool
unfolding metric_value
exceeds alert metrics =
    any (λ m. ltb (to_uint64 alert.threshold) (metric_value alert.condition m)) metrics

abbrev pub answered : Option (List IssueMetrics) → W (List IssueMetrics)
answered none = fail metrics_failed
answered (some ms) = pure ms

module _ (wk : AlertWorker) where
  unfoldable pub clock : W ℕ
  clock = on_db (read_clock wk.env)

  unfoldable pub send_by_type : NotificationType → ℕ → Alert → WebhookConfig → W (Unit {0})
  send_by_type triggered_type now alert config =
      on_net (send_alert_triggered wk.net wk.key now alert config)
  send_by_type resolved_type now alert config =
      on_net (send_alert_resolved wk.net wk.key now alert config)

  unfoldable pub send_verified : NotificationType → Alert → WebhookConfig → Option ℕ → W (Unit {0})
  send_verified kind alert config none = fail not_verified
  send_verified kind alert config (some at) = do now ← clock; send_by_type kind now alert config

  unfoldable pub send_notification :
      Alert → NotificationChannel → NotificationType → ChannelType → W (Unit {0})
  send_notification alert channel kind webhook = do
    config ← on_db (get_webhook wk.env channel.id)
    send_verified kind alert config config.verified_at
  send_notification alert channel kind (other_channel t) = fail unsupported_channel

  -- The notification's record after the attempt to send.
  unfoldable pub record_outcome : AlertNotification → Result WorkerError (Unit {0}) → W (Unit {0})
  record_outcome n (err e) = logged (
      on_db
        (update_notification wk.env (record n { status = failed; error_message = wk.message e })))
  record_outcome n (ok u) = do
    now ← clock
    logged (on_db (update_notification wk.env (record n { status = sent; sent_at = some now })))

  unfoldable pub deliver :
      Alert
      → NotificationChannel
      → NotificationType
      → Result WorkerError AlertNotification
      → W (Unit {0})
  deliver alert channel kind (err e) = pure tt
  deliver alert channel kind (ok n) = do
    outcome ← attempt (send_notification alert channel kind channel.channel_type)
    record_outcome n outcome

  -- One round of the loop of `sendNotifications`.
  unfoldable pub notify_channel : Alert → NotificationType → NotificationChannel → W (Unit {0})
  notify_channel alert kind channel =
      if channel.enabled
      then (do
        now ← clock
        created ← attempt (
            on_db (
              create_notification wk.env (record {
                created_at = now;
                sent_at = none;
                notification_type = kind;
                status = pending;
                error_message = [];
                id = 0;
                alert_id = alert.id;
                channel_id = channel.id;
              })))
        deliver alert channel kind created)
      else pure tt

  unfoldable pub notify_channels :
      Alert → NotificationType → List NotificationChannel → W (Unit {0})
  notify_channels alert kind [] = pure tt
  notify_channels alert kind (c ∷ cs) = do
    notify_channel alert kind c
    notify_channels alert kind cs

  unfoldable pub send_notifications : Alert → NotificationType → W (Unit {0})
  send_notifications alert kind = do
    channels ← on_db (list_channels wk.env alert.team_id)
    notify_channels alert kind channels

  unfoldable pub as_triggered : Alert → ℕ → Alert
  as_triggered alert now = record alert {
    status = triggered;
    updated_at = now;
    last_triggered_at = some now;
  }

  unfoldable pub as_resolved : Alert → ℕ → Alert
  as_resolved alert now = record alert { status = active; updated_at = now; resolved_at = some now }

  unfoldable pub trigger_alert : Alert → ℕ → W (Unit {0})
  trigger_alert alert now = do
    on_db (update_alert wk.env (as_triggered alert now))
    send_notifications (as_triggered alert now) triggered_type

  unfoldable pub resolve_alert : Alert → ℕ → W (Unit {0})
  resolve_alert alert now = do
    on_db (update_alert wk.env (as_resolved alert now))
    send_notifications (as_resolved alert now) resolved_type

  unfoldable pub settle : Alert → ℕ → Bool → W (Unit {0})
  settle alert now over =
      if over && is_active alert.status
      then trigger_alert alert now
      else if not over && is_triggered alert.status
      then resolve_alert alert now
      else pure tt

  unfoldable pub ask_metrics : MetricsCriteria → W (List IssueMetrics)
  ask_metrics criteria = answered (wk.metrics criteria)

  unfoldable pub judge : Alert → ℕ → ℕ → List Issue → W (Unit {0})
  judge alert from now [] = if is_triggered alert.status then resolve_alert alert now else pure tt
  judge alert from now (i ∷ is) = do
    metrics ← ask_metrics (record {
      project_ids = alert.project_id ∷ [];
      group_ids = map (λ (x : Issue). x.id) (i ∷ is);
      from = from;
      to = now;
    })
    settle alert now (exceeds alert metrics)

  -- `checkAlert` once the lock is held.
  unfoldable pub check_locked : Alert → ℕ → W (Unit {0})
  check_locked alert now = do
    let from = now - timeframe_duration alert.timeframe
    issues ← on_db (list_issues wk.env (alert.project_id ∷ []) from now)
    judge alert from now issues

  -- `lockDuration` is five minutes.
  unfoldable pub lock_for : Alert → ℕ → AlertLock
  lock_for alert now = record {
    locked_at = now;
    expires_at = now + 5 * minute;
    instance_id = wk.instance_id;
    alert_id = alert.id;
  }

  unfoldable pub when_acquired : Alert → ℕ → Bool → W (Unit {0})
  when_acquired alert now false = pure tt
  when_acquired alert now true =
      deferring (on_db (release_lock wk.env alert.id wk.instance_id)) (check_locked alert now)

  unfoldable pub check_alert : Alert → W (Unit {0})
  check_alert alert = do
    now ← clock
    acquired ← on_db (acquire_lock wk.env (lock_for alert now))
    when_acquired alert now acquired

  unfoldable pub check_alerts : List Alert → W (Unit {0})
  check_alerts [] = pure tt
  check_alerts (a ∷ alerts) = do logged (check_alert a); check_alerts alerts

  -- Every error ends the round and is logged.
  unfoldable pub process_alerts : W (Unit {0})
  process_alerts = logged (do
    now ← clock
    on_db (cleanup_locks wk.env now)
    listed ← on_db (list_alerts wk.env [] [] 0 1000)
    check_alerts (filter (λ (a : Alert). is_active a.status || is_triggered a.status) listed.0))
