-- ===== src/Worker/Settled.antt =====
-- What becomes of the notifications that `sendNotifications` of internal/worker/alert_worker.go
-- records.
use warnly.Base.{
  ℕ, ◌+◌, ◌<◌, ◌≡◌, refl, sym, ap, ap₂, ◌∙◌, Bool, true, false, Bool-cases, inl, inr, ◌⊎◌, ◌==◌,
  Option, none, some, List, [], ◌∷◌, ◌++◌, append-nil, append_assoc, subst, map, if◌then◌else◌,
  filter, All, Result, ok, err, and_then, ◌>>=◌, arith, ==_refl,
}
use warnly.Alert.{
  Alert, NotificationChannel, NotificationType, triggered_type, resolved_type, WebhookConfig,
  AlertNotification, pending, sent, failed, ChannelType, webhook, other_channel,
}
use warnly.Db.Tables.{Db, exec, read_clock}
use warnly.Db.Statements.{
  set_outcome, list_channels, get_webhook, create_notification, update_notification,
}
use warnly.Worker.Check.{
  World, WorkerError, W, on_db, attempt, logged, clock, send_by_type, send_verified,
  send_notification, record_outcome, deliver, notify_channel, notify_channels, send_notifications,
  AlertWorker,
}
use warnly.Worker.Frame.{Keeps, Keeps->>=, Keeps-on_db, Keeps-on_net}

-- The two fields of the database that recording a notification reads and writes.
abbrev recorded : Db → List AlertNotification × ℕ
recorded db = (db.notifications, db.next_id)

-- The notification that was recorded, with the outcome of the attempt to send it.
abbrev IsOutcome : AlertNotification → AlertNotification → Type 0
IsOutcome n m =
    (m.channel_id ≡ n.channel_id)
    × (m.alert_id ≡ n.alert_id)
    × (m.notification_type ≡ n.notification_type)
    × ((m.status ≡ sent) ⊎ (m.status ≡ failed))
    × (m.id ≡ n.id)

-- One row for each channel, with the outcome.
abbrev pub AreSettled :
    Alert → NotificationType → List NotificationChannel → List AlertNotification → Type 0
AreSettled alert kind [] [] = Unit
AreSettled alert kind [] (n ∷ ns) = ⊥
AreSettled alert kind (c ∷ cs) [] = ⊥
AreSettled alert kind (c ∷ cs) (n ∷ ns) =
    (n.channel_id ≡ c.id)
    × (n.alert_id ≡ alert.id)
    × (n.notification_type ≡ kind)
    × ((n.status ≡ sent) ⊎ (n.status ≡ failed))
    × AreSettled alert kind cs ns

abbrev pub IsFresh : World → Type 0
IsFresh w = All (λ (r : AlertNotification). r.id < w.db.next_id) w.db.notifications

module _ (wk : AlertWorker) (runs : (n : ℕ) → wk.env.fails n ≡ false) where
  clock-recorded : Keeps (λ w. recorded w.db) (clock wk)
  unfolding clock read_clock
  clock-recorded = Keeps-on_db recorded (read_clock wk.env) (λ db. refl)

  get_webhook-recorded : (id : ℕ) (db : Db) → recorded (get_webhook wk.env id db).1 ≡ recorded db
  unfolding get_webhook exec
  get_webhook-recorded id db = rw (runs db.statements) refl

  send_by_type-recorded :
      (kind : NotificationType) (now : ℕ) (alert : Alert) (config : WebhookConfig)
      → Keeps (λ w. recorded w.db) (send_by_type wk kind now alert config)
  unfolding send_by_type
  send_by_type-recorded triggered_type now alert config = Keeps-on_net recorded _
  send_by_type-recorded resolved_type now alert config = Keeps-on_net recorded _

  send_verified-recorded :
      (kind : NotificationType) (alert : Alert) (config : WebhookConfig) (at : Option ℕ)
      → Keeps (λ w. recorded w.db) (send_verified wk kind alert config at)
  unfolding send_verified
  send_verified-recorded kind alert config none = λ w. refl
  send_verified-recorded kind alert config (some at) =
      Keeps->>= (λ w. recorded w.db) (clock wk) _ clock-recorded
        (λ now. send_by_type-recorded kind now alert config)

  send_notification-recorded :
      (alert : Alert) (channel : NotificationChannel) (kind : NotificationType) (t : ChannelType)
      → Keeps (λ w. recorded w.db) (send_notification wk alert channel kind t)
  unfolding send_notification
  send_notification-recorded alert channel kind webhook =
      Keeps->>= (λ w. recorded w.db) (on_db (get_webhook wk.env channel.id)) _
        (Keeps-on_db recorded (get_webhook wk.env channel.id) (get_webhook-recorded channel.id))
        (λ config. send_verified-recorded kind alert config config.verified_at)
  send_notification-recorded alert channel kind (other_channel t) = λ w. refl

  updated_row :
      (n : AlertNotification) (w : World)
      → recorded (logged (on_db (update_notification wk.env n)) w).1.db
        ≡ (map (set_outcome n) w.db.notifications, w.db.next_id)
  unfolding update_notification logged on_db exec
  updated_row n w = rw (runs w.db.statements) refl

  abbrev IsLast : AlertNotification → List AlertNotification → ℕ → World → Type 0
  IsLast n rows next w =
      (w.db.notifications ≡ rows ++ n ∷ [])
      × (w.db.next_id ≡ next)
      × All (λ (r : AlertNotification). r.id < n.id) rows

  map_last :
      (n o : AlertNotification) (rows : List AlertNotification)
      → o.id ≡ n.id
      → All (λ (r : AlertNotification). r.id < n.id) rows
      → map (set_outcome o) (rows ++ n ∷ [])
        ≡ rows
          ++ record n { status = o.status; error_message = o.error_message; sent_at = o.sent_at }
            ∷ []
  unfolding set_outcome
  map_last n o [] e h = rw (sym e, ==_refl o.id) refl
  map_last n o (r ∷ rows) e (h, rest) =
      rw (other r.id o.id (omega (arith, h, e)), map_last n o rows e rest) refl
    where
      other : (a b : ℕ) → a < b → a == b ≡ false
      other a b h = ground (arith, h)

  outcome_stored :
      (n o : AlertNotification) (rows : List AlertNotification) (next : ℕ) (w : World)
      → o.id ≡ n.id
      → IsLast n rows next w
      → recorded (logged (on_db (update_notification wk.env o)) w).1.db ≡ (
        rows
            ++ record n { status = o.status; error_message = o.error_message; sent_at = o.sent_at }
              ∷ [],
        next,
      )
  outcome_stored n o rows next w e (stored, same, below) =
      updated_row o w
      ∙ ap₂ (λ (xs : List AlertNotification) (i : ℕ). (xs, i))
          (ap (map (set_outcome o)) stored ∙ map_last n o rows e below) same

  abbrev Outcome : AlertNotification → List AlertNotification → ℕ → World → Type 0
  Outcome n rows next w =
      (m : AlertNotification) × (recorded w.db ≡ (rows ++ m ∷ [], next)) × IsOutcome n m

  record_outcome-Outcome :
      (n : AlertNotification) (r : Result WorkerError (Unit {0})) (rows : List AlertNotification)
      (next : ℕ) (w : World)
      → IsLast n rows next w
      → Outcome n rows next (record_outcome wk n r w).1
  unfolding record_outcome clock on_db read_clock
  record_outcome-Outcome n (err e) rows next w last =
      (_, outcome_stored n _ rows next w refl last, (refl, refl, refl, inr refl, refl))
  record_outcome-Outcome n (ok u) rows next w last = (
    _,
    outcome_stored n (record n { status = sent; sent_at = some (wk.env.clock w.db.readings) }) rows
        next (record w { db = (let db = w.db in record db { readings = db.readings + 1 }) }) refl
        last,
    (refl, refl, refl, inl refl, refl),
  )

  after_sending :
      (alert : Alert) (channel : NotificationChannel) (kind : NotificationType) (t : ChannelType)
      (n : AlertNotification) (rows : List AlertNotification) (next : ℕ) (v : World)
      → IsLast n rows next v
      → Outcome n rows next
          (record_outcome wk n
            (send_notification wk alert channel kind t v).0
            (send_notification wk alert channel kind t v).1).1
  after_sending alert channel kind t n rows next v (stored, same, below) =
      let kept = send_notification-recorded alert channel kind t v in
      record_outcome-Outcome n (send_notification wk alert channel kind t v).0 rows next
        (send_notification wk alert channel kind t v).1
        (ap (λ x. x.0) kept ∙ stored, ap (λ x. x.1) kept ∙ same, below)

  abbrev new_row : Alert → NotificationType → NotificationChannel → World → AlertNotification
  new_row alert kind c w = record {
    created_at = wk.env.clock w.db.readings;
    sent_at = none;
    notification_type = kind;
    status = pending;
    error_message = [];
    id = w.db.next_id;
    alert_id = alert.id;
    channel_id = c.id;
  }

  abbrev with_row : AlertNotification → World → World
  with_row n w = record w {
    db =
        (let db = w.db in
          record db {
            notifications = db.notifications ++ n ∷ [];
            next_id = db.next_id + 1;
            statements = db.statements + 1;
            readings = db.readings + 1;
          });
  }

  if_true : (b : Bool) (m n : W (Unit {0})) (w : World) → b ≡ true → (if b then m else n) w ≡ m w
  if_true b m n w h = rw h refl

  if_false : (b : Bool) (m n : W (Unit {0})) (w : World) → b ≡ false → (if b then m else n) w ≡ n w
  if_false b m n w h = rw h refl

  notify_channel-on :
      (alert : Alert) (kind : NotificationType) (c : NotificationChannel) (w : World)
      → c.enabled ≡ true
      → notify_channel wk alert kind c w ≡ (
          let r =
            send_notification wk alert c kind c.channel_type
              (with_row (new_row alert kind c w) w) in
          record_outcome wk (new_row alert kind c w) r.0 r.1)
  unfolding notify_channel deliver attempt clock on_db read_clock create_notification exec
  notify_channel-on alert kind c w on = if_true c.enabled _ _ w on ∙ rw (runs w.db.statements) refl

  record_outcome-ok :
      (n : AlertNotification) (r : Result WorkerError (Unit {0})) (w : World)
      → (record_outcome wk n r w).0 ≡ ok tt
  unfolding record_outcome logged clock on_db read_clock
  record_outcome-ok n (err e) w = refl
  record_outcome-ok n (ok u) w = refl

  list_if_true :
      (b : Bool) (xs ys : List NotificationChannel) → b ≡ true → (if b then xs else ys) ≡ xs
  list_if_true b xs ys h = rw h refl

  list_if_false :
      (b : Bool) (xs ys : List NotificationChannel) → b ≡ false → (if b then xs else ys) ≡ ys
  list_if_false b xs ys h = rw h refl

  first_done : (m k : W (Unit {0})) (w : World) → (m w).0 ≡ ok tt → (m >>= λ _. k) w ≡ k (m w).1
  first_done m k w h = done (m w) h
    where
      done : (r : Result WorkerError (Unit {0}) × World) → r.0 ≡ ok tt → and_then r (λ _. k) ≡ k r.1
      done (ok u, v) h = refl
      done (err e, v) h = cc

  notify_channel-one :
      (alert : Alert) (kind : NotificationType) (c : NotificationChannel) (w : World)
      → c.enabled ≡ true
      → IsFresh w
      → ((notify_channel wk alert kind c w).0 ≡ ok tt)
        × Outcome
            (new_row alert kind c w)
            w.db.notifications
            (w.db.next_id + 1)
            (notify_channel wk alert kind c w).1
  notify_channel-one alert kind c w on fresh = rw (notify_channel-on alert kind c w on) (
    record_outcome-ok _ _ _,
    after_sending alert c kind c.channel_type (new_row alert kind c w) w.db.notifications
        (w.db.next_id + 1) (with_row (new_row alert kind c w) w) (refl, refl, fresh),
  )

  notify_channel-off :
      (alert : Alert) (kind : NotificationType) (c : NotificationChannel) (w : World)
      → c.enabled ≡ false
      → notify_channel wk alert kind c w ≡ (ok tt, w)
  unfolding notify_channel
  notify_channel-off alert kind c w off = if_false c.enabled _ _ w off

  fresh_after :
      (rows : List AlertNotification) (m : AlertNotification) (next : ℕ)
      → All (λ (r : AlertNotification). r.id < next) rows
      → m.id ≡ next
      → All (λ (r : AlertNotification). r.id < next + 1) (rows ++ m ∷ [])
  fresh_after [] m next h e = (omega (arith, e), tt)
  fresh_after (r ∷ rows) m next (h, rest) e = (omega (arith, h), fresh_after rows m next rest e)

  fresh_again :
      (p : List AlertNotification × ℕ) (rows : List AlertNotification) (m : AlertNotification)
      (next : ℕ)
      → p ≡ (rows ++ m ∷ [], next + 1)
      → All (λ (r : AlertNotification). r.id < next) rows
      → m.id ≡ next
      → All (λ (r : AlertNotification). r.id < p.1) p.0
  fresh_again p rows m next e h numbered = rw e (fresh_after rows m next h numbered)

  notify_channels-AreSettled :
      (alert : Alert) (kind : NotificationType) (channels : List NotificationChannel) (w : World)
      → IsFresh w
      → (found : List AlertNotification) × ((notify_channels wk alert kind channels
            w).1.db.notifications
          ≡ w.db.notifications ++ found)
        × AreSettled alert kind (filter (λ (c : NotificationChannel). c.enabled) channels) found
  unfolding notify_channels
  notify_channels-AreSettled alert kind [] w fresh = ([], sym (append-nil w.db.notifications), tt)
  notify_channels-AreSettled alert kind (c ∷ cs) w fresh = elim (Bool-cases c.enabled) [
    | inl on ↦
        let (done, (row, stored, (channel, of_alert, of_kind, settled, numbered))) =
          notify_channel-one alert kind c w on fresh in
        let (found, more, all) =
          notify_channels-AreSettled alert kind cs (notify_channel wk alert kind c w).1
            (fresh_again _ w.db.notifications row w.db.next_id stored fresh numbered) in
        (
          row ∷ found,
          ap (λ r. r.1.db.notifications)
                (first_done (notify_channel wk alert kind c) (notify_channels wk alert kind cs) w
                  done)
              ∙ more
              ∙ ap (λ rows. rows ++ found) (ap (λ x. x.0) stored)
              ∙ append_assoc w.db.notifications (row ∷ []) found,
          subst (λ l. AreSettled alert kind l (row ∷ found)) (sym (list_if_true c.enabled _ _ on))
              (channel, of_alert, of_kind, settled, all),
        )
    | inr off ↦
        let done = notify_channel-off alert kind c w off in
        let (found, more, all) = notify_channels-AreSettled alert kind cs w fresh in
        (
          found,
          ap (λ r. r.1.db.notifications)
                (first_done (notify_channel wk alert kind c) (notify_channels wk alert kind cs) w
                  (ap (λ x. x.0) done))
              ∙ ap (λ v. (notify_channels wk alert kind cs v).1.db.notifications)
                  (ap (λ x. x.1) done)
              ∙ more,
          subst (λ l. AreSettled alert kind l found) (sym (list_if_false c.enabled _ _ off)) all,
        )
  ]

  -- Where no statement fails and the numbers of notifications lie below the next one, every enabled
  -- channel of the alert's team gets one new notification, in the order of the channels, and each
  -- of them is sent or failed in the end, whatever becomes of the requests.
  pub send_notifications-AreSettled :
      (alert : Alert) (kind : NotificationType) (w : World)
      → IsFresh w
      → (found : List AlertNotification) × ((send_notifications wk alert kind w).1.db.notifications
          ≡ w.db.notifications ++ found)
        × AreSettled alert kind
            (filter
              (λ (c : NotificationChannel). c.enabled)
              (filter (λ (c : NotificationChannel). c.team_id == alert.team_id) w.db.channels))
            found
  unfolding send_notifications on_db list_channels exec
  send_notifications-AreSettled alert kind w fresh = rw (runs w.db.statements) (
      notify_channels-AreSettled alert kind
        (filter (λ (c : NotificationChannel). c.team_id == alert.team_id) w.db.channels)
        (record w { db = (let db = w.db in record db { statements = db.statements + 1 }) }) fresh)
