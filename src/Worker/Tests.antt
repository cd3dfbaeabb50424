-- ===== src/Worker/Tests.antt =====
-- The worker's theorems at one alert.
use warnly.Base.{
  List, ◌++◌, ◌+◌, ◌-◌, ◌<◌, ◌≡◌, ◌≢◌, inl, refl, true, false, none, some, [], ◌∷◌, text,
  bytes_eq_iff, arith,
}
use warnly.Base.Int.{pos}
use warnly.Alert.{
  Alert, NotificationChannel, AlertNotification, webhook, triggered_type, active, occurrences,
  five_min, timeframe_duration,
}
use warnly.Locks.Table.{AlertLock, Locks}
use warnly.Locks.Rows.{row_of, HasKeys}
use warnly.Db.Tables.{Env, Issue}
use warnly.Db.Statements.{list_issues}
use warnly.Notifier.Secret.{Crypto}
use warnly.Notifier.Send.{Net}
use warnly.Worker.Check.{
  AlertWorker, World, send_notifications, check_alert, check_locked, on_db, lock_for,
}
use warnly.Worker.Locking.{locks_of, check_alert_unlocks}
use warnly.Worker.Settled.{AreSettled, send_notifications-AreSettled}
use warnly.Worker.Lifecycle.{
  Lifecycle, new_lifecycle, start, Reaches, fresh, on_start, IsSound, Reaches-IsSound,
}
use warnly.Worker.Verdict.{Verdict}
use warnly.Worker.Decision.{alerts_of, check_locked-Verdict}

abbrev crypto : Crypto
crypto = record {
  sha256 = λ b. b;
  new_cipher = λ key. true;
  new_gcm = λ key. true;
  nonce_size = 2;
  gcm_seal = λ key nonce plain. plain;
  gcm_open = λ key nonce sealed. some sealed;
  base64 = λ b. b;
  unbase64 = λ b. some b;
}

abbrev net : Net
net = record {
  crypto = crypto;
  marshal = λ p. some p.status;
  valid_url = λ u. true;
  hmac_hex = λ body secret. secret;
  respond = λ n r. some (record { status_code = 200; body = some [] });
}

abbrev env : Env
env = record { fails = λ n. false; db_now = λ n. 1000 + n; clock = λ n. 1000; counts = λ a b. true }

abbrev worker : AlertWorker
worker = record {
  env = env;
  net = net;
  key = text "key";
  instance_id = text "a";
  metrics = λ c. some (record { gid = 1; times_seen = 500; user_count = 3 } ∷ []);
  message = λ e. text "failed";
}

abbrev alert : Alert
alert = record {
  created_at = 1;
  updated_at = 1;
  last_triggered_at = none;
  resolved_at = none;
  notification_sent_at = none;
  rule_name = text "rule";
  description = [];
  status = active;
  id = 1;
  project_id = 2;
  team_id = 3;
  threshold = pos 10;
  condition = occurrences;
  timeframe = five_min;
  high_priority = false;
}

abbrev issue : Issue
issue = record {
  id = 4;
  project_id = 2;
  first_seen = 10;
  last_seen = 900;
  error_type = [];
  view = [];
  message = [];
  hash = text "h";
  uuid = text "u";
  priority = 3;
  num_comments = 0;
}

abbrev world : Locks → World
world locks = record {
  db = record {
    alerts = alert ∷ [];
    channels = [];
    webhooks = [];
    notifications = [];
    locks = locks;
    issues = issue ∷ [];
    projects = [];
    teams = [];
    memberships = [];
    users = [];
    messages = [];
    mentions = [];
    assignments = [];
    next_id = 10;
    statements = 0;
    readings = 0;
  };
  outbox = record { requests = [] };
}

abbrev foreign : AlertLock
foreign = record { locked_at = 900; expires_at = 5000; instance_id = text "b"; alert_id = 1 }

foreign_keys : HasKeys (foreign ∷ [])
unfolding row_of
foreign_keys = (refl, tt)

foreign_row : row_of 1 (foreign ∷ []) ≡ some foreign
unfolding row_of
foreign_row = refl

no_row : row_of 1 [] ≡ none
unfolding row_of
no_row = refl

lasts : 1001 < (lock_for worker alert 1000).expires_at
unfolding lock_for
lasts = omega arith

false-true : false ≡ true → ⊥
false-true h = cc

differs : text "b" ≢ text "a"
differs e = false-true ((bytes_eq_iff (text "b") (text "a")).1 e)

check_alert_unlocks_example : row_of 1 (locks_of (check_alert worker alert (world [])).1) ≡ none
check_alert_unlocks_example =
    check_alert_unlocks worker (λ n. refl) alert (world []) 1 tt lasts (inl no_row)

abbrev running : Lifecycle
running = start (new_lifecycle (pos 60000000000))

running_reached : Reaches running
unfolding new_lifecycle
running_reached = on_start (fresh (pos 60000000000) refl) refl

Reaches-IsSound_example : IsSound running
Reaches-IsSound_example = Reaches-IsSound running running_reached

is_running : running.running ≡ true
unfolding start new_lifecycle
is_running = refl

still_listening : running.stop_closed ≡ false
unfolding start new_lifecycle
still_listening = refl

check_locked-Verdict_example :
    Verdict worker alert 1000
      (on_db (list_issues env (2 ∷ []) (1000 - timeframe_duration five_min) 1000) (world [])).0
      (on_db
        (list_issues env (2 ∷ []) (1000 - timeframe_duration five_min) 1000)
        (world [])).1.db.statements
      (alert ∷ [])
      (alerts_of (check_locked worker alert 1000 (world [])).1)
check_locked-Verdict_example = check_locked-Verdict worker alert 1000 (world [])

abbrev channel : NotificationChannel
channel = record {
  created_at = 1;
  updated_at = 1;
  name = text "hook";
  channel_type = webhook;
  team_id = 3;
  id = 6;
  enabled = true;
}

-- No webhook is set for the channel, so the attempt fails.
abbrev world_with_channel : World
world_with_channel = record (world []) {
  db = (let db = (world []).db in record db { channels = channel ∷ [] });
}

send_notifications-AreSettled_example :
    (found : List AlertNotification) × ((send_notifications worker alert triggered_type
        world_with_channel).1.db.notifications
      ≡ [] ++ found)
    × AreSettled alert triggered_type (channel ∷ []) found
send_notifications-AreSettled_example =
    send_notifications-AreSettled worker (λ n. refl) alert triggered_type world_with_channel tt
