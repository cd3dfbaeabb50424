-- ===== src/Worker/Frame.antt =====
-- What the steps of the worker leave alone, whichever statements fail.
use warnly.Base.{
  ℕ, ◌≡◌, refl, ◌∙◌, Bool, true, false, Option, none, some, List, [], ◌∷◌, Bool-cases, inl, inr,
  Result, ok, err, Action, pure, if◌then◌else◌, and_then, ◌>>=◌,
}
use warnly.Alert.{
  Alert, NotificationChannel, NotificationType, triggered_type, resolved_type, WebhookConfig,
  AlertNotification, ChannelType, webhook, other_channel,
}
use warnly.Locks.Table.{Locks}
use warnly.Db.Tables.{exec, read_clock, M, Db, DbError}
use warnly.Db.Statements.{list_channels, get_webhook, create_notification, update_notification}
use warnly.Notifier.Send.{SendError, Outbox}
use warnly.Worker.Check.{
  World, lift_db, lift_send, WorkerError, W, on_db, on_net, attempt, logged, clock, send_by_type,
  send_verified, send_notification, record_outcome, deliver, notify_channel, notify_channels,
  send_notifications, AlertWorker,
}

-- `f` reads the same before and after `m`.
abbrev pub Keeps : {X A : Type 0} → (World → X) → W A → Type 0
Keeps f m = (w : World) → f (m w).1 ≡ f w

module _ {X : Type 0} (f : World → X) where
  pub and_then-Keeps :
      {A B : Type 0} (r : Result WorkerError A × World) (k : A → W B)
      → ((a : A) → Keeps f (k a))
      → f (and_then r k).1 ≡ f r.1
  and_then-Keeps (ok a, w) k h = h a w
  and_then-Keeps (err e, w) k h = refl

  pub Keeps->>= :
      {A B : Type 0} (m : W A) (k : A → W B)
      → Keeps f m
      → ((a : A) → Keeps f (k a))
      → Keeps f (m >>= k)
  Keeps->>= m k hm hk w = and_then-Keeps (m w) k hk ∙ hm w

  pub Keeps-if :
      (b : Bool) (m n : W (Unit {0})) → Keeps f m → Keeps f n → Keeps f (if b then m else n)
  Keeps-if true m n h k = h
  Keeps-if false m n h k = k

  Keeps-attempt : {A : Type 0} (m : W A) → Keeps f m → Keeps f (attempt m)
  unfolding attempt
  Keeps-attempt m h w = h w

  Keeps-logged : {A : Type 0} (m : W A) → Keeps f m → Keeps f (logged m)
  unfolding logged
  Keeps-logged m h w = h w

-- A part of the database that a statement leaves alone.
module _ {X : Type 0} (g : Db → X) where
  lift_db_keeps :
      {A : Type 0} (r : Result DbError A × Db) (w : World) → g (lift_db r w).1.db ≡ g r.1
  lift_db_keeps (ok a, db) w = refl
  lift_db_keeps (err e, db) w = refl

  pub Keeps-on_db :
      {A : Type 0} (m : M A) → ((db : Db) → g (m db).1 ≡ g db) → Keeps (λ w. g w.db) (on_db m)
  unfolding on_db
  Keeps-on_db m h w = lift_db_keeps (m w.db) w ∙ h w.db

  lift_send_keeps :
      {A : Type 0} (r : Result SendError A × Outbox) (w : World) → g (lift_send r w).1.db ≡ g w.db
  lift_send_keeps (ok a, out) w = refl
  lift_send_keeps (err e, out) w = refl

  pub Keeps-on_net : {A : Type 0} (m : Action Outbox SendError A) → Keeps (λ w. g w.db) (on_net m)
  unfolding on_net
  Keeps-on_net m w = lift_send_keeps (m w.outbox) w

-- A part of the database that no notification statement and no reading of the clock touches.
pub record IsApart {X : Type 0} (g : Db → X) : Type 0 where
  pub of_fields : (db db' : Db) → db.alerts ≡ db'.alerts → db.locks ≡ db'.locks → g db ≡ g db'

module _ (wk : AlertWorker) {X : Type 0} (g : Db → X) (apart : IsApart g) where
  clock-Keeps : Keeps (λ w. g w.db) (clock wk)
  unfolding clock
  clock-Keeps =
      Keeps-on_db g (read_clock wk.env)
        (λ db. apart.of_fields _ _ (unfold read_clock in refl) (unfold read_clock in refl))

  exec_keeps :
      {A : Type 0} (m : M A)
      → ((db : Db) → ((m db).1.alerts ≡ db.alerts) × ((m db).1.locks ≡ db.locks))
      → (db : Db) → g (exec wk.env m db).1 ≡ g db
  unfolding exec
  exec_keeps m h db =
      apart.of_fields _ _
        (elim (Bool-cases (wk.env.fails db.statements)) [
          | inl fails ↦ rw fails
          | inr runs ↦ rw runs (h _).0
        ])
        (elim (Bool-cases (wk.env.fails db.statements)) [
          | inl fails ↦ rw fails
          | inr runs ↦ rw runs (h _).1
        ])

  list_channels-Keeps : (t : ℕ) → Keeps (λ w. g w.db) (on_db (list_channels wk.env t))
  unfolding list_channels
  list_channels-Keeps t = Keeps-on_db g _ (exec_keeps _ (λ db. (refl, refl)))

  get_webhook-Keeps : (c : ℕ) → Keeps (λ w. g w.db) (on_db (get_webhook wk.env c))
  unfolding get_webhook
  get_webhook-Keeps c = Keeps-on_db g _ (exec_keeps _ (λ db. (refl, refl)))

  create_notification-Keeps :
      (n : AlertNotification) → Keeps (λ w. g w.db) (on_db (create_notification wk.env n))
  unfolding create_notification
  create_notification-Keeps n = Keeps-on_db g _ (exec_keeps _ (λ db. (refl, refl)))

  update_notification-Keeps :
      (n : AlertNotification) → Keeps (λ w. g w.db) (on_db (update_notification wk.env n))
  unfolding update_notification
  update_notification-Keeps n = Keeps-on_db g _ (exec_keeps _ (λ db. (refl, refl)))

  send_by_type-Keeps :
      (kind : NotificationType) (now : ℕ) (alert : Alert) (config : WebhookConfig)
      → Keeps (λ w. g w.db) (send_by_type wk kind now alert config)
  unfolding send_by_type
  send_by_type-Keeps triggered_type now alert config = Keeps-on_net g _
  send_by_type-Keeps resolved_type now alert config = Keeps-on_net g _

  send_verified-Keeps :
      (kind : NotificationType) (alert : Alert) (config : WebhookConfig) (at : Option ℕ)
      → Keeps (λ w. g w.db) (send_verified wk kind alert config at)
  unfolding send_verified
  send_verified-Keeps kind alert config none = λ w. refl
  send_verified-Keeps kind alert config (some at) =
      Keeps->>= _ (clock wk) (λ now. send_by_type wk kind now alert config) clock-Keeps
        (λ now. send_by_type-Keeps kind now alert config)

  send_notification-Keeps :
      (alert : Alert) (c : NotificationChannel) (kind : NotificationType) (t : ChannelType)
      → Keeps (λ w. g w.db) (send_notification wk alert c kind t)
  unfolding send_notification
  send_notification-Keeps alert c kind webhook =
      Keeps->>= _ (on_db (get_webhook wk.env c.id))
        (λ config. send_verified wk kind alert config config.verified_at) (get_webhook-Keeps c.id)
        (λ config. send_verified-Keeps kind alert config config.verified_at)
  send_notification-Keeps alert c kind (other_channel t) = λ w. refl

  record_outcome-Keeps :
      (n : AlertNotification) (r : Result WorkerError (Unit {0}))
      → Keeps (λ w. g w.db) (record_outcome wk n r)
  unfolding record_outcome
  record_outcome-Keeps n (err e) = Keeps-logged _ _ (update_notification-Keeps _)
  record_outcome-Keeps n (ok u) =
      Keeps->>= _ (clock wk) _ clock-Keeps (λ now. Keeps-logged _ _ (update_notification-Keeps _))

  deliver-Keeps :
      (alert : Alert) (c : NotificationChannel) (kind : NotificationType)
      (r : Result WorkerError AlertNotification)
      → Keeps (λ w. g w.db) (deliver wk alert c kind r)
  unfolding deliver
  deliver-Keeps alert c kind (err e) = λ w. refl
  deliver-Keeps alert c kind (ok n) =
      Keeps->>= _ (attempt (send_notification wk alert c kind c.channel_type)) (record_outcome wk n)
        (Keeps-attempt _ _ (send_notification-Keeps alert c kind c.channel_type))
        (record_outcome-Keeps n)

  notify_channel-Keeps :
      (alert : Alert) (kind : NotificationType) (c : NotificationChannel)
      → Keeps (λ w. g w.db) (notify_channel wk alert kind c)
  unfolding notify_channel
  notify_channel-Keeps alert kind c =
      Keeps-if _ c.enabled _ (pure tt)
        (Keeps->>= _ (clock wk) _ clock-Keeps (λ now.
          Keeps->>= _ (attempt (on_db (create_notification wk.env _))) (deliver wk alert c kind)
            (Keeps-attempt _ (on_db (create_notification wk.env _)) (create_notification-Keeps _))
            (deliver-Keeps alert c kind)))
        (λ w. refl)

  notify_channels-Keeps :
      (alert : Alert) (kind : NotificationType) (cs : List NotificationChannel)
      → Keeps (λ w. g w.db) (notify_channels wk alert kind cs)
  unfolding notify_channels
  notify_channels-Keeps alert kind [] = λ w. refl
  notify_channels-Keeps alert kind (c ∷ cs) =
      Keeps->>= _ (notify_channel wk alert kind c) _ (notify_channel-Keeps alert kind c)
        (λ _. notify_channels-Keeps alert kind cs)

  pub send_notifications-Keeps :
      (alert : Alert) (kind : NotificationType)
      → Keeps (λ w. g w.db) (send_notifications wk alert kind)
  unfolding send_notifications
  send_notifications-Keeps alert kind =
      Keeps->>= _ (on_db (list_channels wk.env alert.team_id)) (notify_channels wk alert kind)
        (list_channels-Keeps alert.team_id) (notify_channels-Keeps alert kind)

abbrev locks_of : World → Locks
locks_of w = w.db.locks

pub alerts-IsApart : IsApart (λ db. db.alerts)
alerts-IsApart = record { of_fields = λ db db' a l. a }

pub locks-IsApart : IsApart (λ db. db.locks)
locks-IsApart = record { of_fields = λ db db' a l. l }
