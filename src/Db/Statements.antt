-- ===== src/Db/Statements.antt =====
-- The statements of internal/mysql/alert.go, notification.go, issue.go, team.go and project.go
-- that the alert worker and the services use.
use warnly.Base.{
  ℕ, ◌+◌, Bool, true, not, ◌&&◌, ◌||◌, List, [], ◌∷◌, ◌++◌, map, if◌then◌else◌, ◌==◌, leb, Bytes,
  bytes_eq, is_empty, filter, find?, flat_map, any, length, take, drop, ok, err, ◌>>=◌, ◌>>◌, pure,
  or_err,
}
use warnly.Alert.{Alert, NotificationChannel, WebhookConfig, AlertNotification}
use warnly.Locks.Table.{AlertLock, upsert, holder, release, cleanup, is_holder}
use warnly.Db.Tables.{
  Issue, Project, Team, Db, Env, no_rows, not_found, project_not_found, bad_rows_affected, panicked,
  M, exec, exec_now,
}

abbrev pub has_id : List ℕ → ℕ → Bool
has_id ids n = any (λ i. i == n) ids

-- `ListAlerts`: the condition on teams is left out where no team is given, and that on the
-- project's name where it is empty. The join drops alerts of no project.
unfoldable pub project_named : List Project → Bytes → Alert → Bool
project_named projects name a =
    any (λ p. p.id == a.project_id && (is_empty name || bytes_eq p.name name)) projects

unfoldable pub in_teams : List ℕ → Alert → Bool
in_teams [] a = true
in_teams (t ∷ ts) a = has_id (t ∷ ts) a.team_id

unfoldable pub matching_alerts : List ℕ → Bytes → Db → List Alert
unfolding project_named in_teams
matching_alerts team_ids name db =
    filter (λ a. in_teams team_ids a && project_named db.projects name a) db.alerts

-- The columns that UPDATE sets; `id`, `created_at`, `project_id` and `team_id` stay.
unfoldable pub updated : Alert → Alert → Alert
updated alert row = record alert {
  created_at = row.created_at;
  id = row.id;
  project_id = row.project_id;
  team_id = row.team_id;
}

unfoldable pub update_rows : Alert → List Alert → List Alert
unfolding updated
update_rows alert rows = map (λ row. if row.id == alert.id then updated alert row else row) rows

unfoldable pub set_outcome : AlertNotification → AlertNotification → AlertNotification
set_outcome n row =
    if row.id == n.id
    then record row { status = n.status; error_message = n.error_message; sent_at = n.sent_at }
    else row

-- FROM team_relation AS tr JOIN team AS t WHERE tr.user_id = ?: the join has no condition.
unfoldable pub joined_teams : ℕ → Db → List Team
joined_teams user_id db =
    flat_map (λ tr. if tr.user_id == user_id then db.teams else []) db.memberships

module _ (env : Env) where
  -- The count and the page are two statements.
  unfoldable pub list_alerts : List ℕ → Bytes → ℕ → ℕ → M (List Alert × ℕ)
  unfolding matching_alerts
  list_alerts team_ids name offset limit = do
    total ← exec env (λ db. (ok (length (matching_alerts team_ids name db)), db))
    page ← exec env (λ db. (ok (take limit (drop offset (matching_alerts team_ids name db))), db))
    pure (page, total)

  unfoldable pub create_alert : Alert → M Alert
  create_alert alert = exec env λ db.
      let stored = record alert { id = db.next_id } in
      (ok stored, record db { alerts = stored ∷ db.alerts; next_id = db.next_id + 1 })

  unfoldable pub get_alert : ℕ → M Alert
  get_alert alert_id =
      exec env (λ db. (or_err (find? (λ a. a.id == alert_id) db.alerts) not_found, db))

  unfoldable pub affected : Alert → List Alert → ℕ
  unfolding updated
  affected alert rows =
      length (filter (λ row. row.id == alert.id && env.counts row (updated alert row)) rows)

  unfoldable pub update_alert : Alert → M (Unit {0})
  unfolding update_rows affected
  update_alert alert = exec env λ db. (
    if affected alert db.alerts == 1 then ok tt else err bad_rows_affected,
    record db { alerts = update_rows alert db.alerts },
  )

  unfoldable pub delete_alert : ℕ → M (Unit {0})
  delete_alert alert_id = exec env λ db. (
    if length (filter (λ a. a.id == alert_id) db.alerts) == 1 then ok tt else err bad_rows_affected,
    record db { alerts = filter (λ a. not (a.id == alert_id)) db.alerts },
  )

  unfoldable pub list_channels : ℕ → M (List NotificationChannel)
  list_channels team_id = exec env (λ db. (ok (filter (λ c. c.team_id == team_id) db.channels), db))

  unfoldable pub create_channel : NotificationChannel → M NotificationChannel
  create_channel channel = exec env λ db.
      let stored = record channel { id = db.next_id } in
      (ok stored, record db { channels = stored ∷ db.channels; next_id = db.next_id + 1 })

  unfoldable pub get_webhook : ℕ → M WebhookConfig
  get_webhook channel_id =
      exec env (λ db. (or_err (find? (λ c. c.channel_id == channel_id) db.webhooks) not_found, db))

  unfoldable pub create_webhook : WebhookConfig → M WebhookConfig
  create_webhook config = exec env λ db.
      let stored = record config { id = db.next_id } in
      (ok stored, record db { webhooks = stored ∷ db.webhooks; next_id = db.next_id + 1 })

  unfoldable pub update_webhook : WebhookConfig → M (Unit {0})
  update_webhook config = exec env λ db. (
    ok tt,
    record db {
      webhooks =
          map
            (λ row.
              if row.channel_id == config.channel_id
              then record row {
                updated_at = config.updated_at;
                url = config.url;
                secret_encrypted = config.secret_encrypted;
                verified_at = config.verified_at;
              }
              else row)
            db.webhooks;
    },
  )

  unfoldable pub create_notification : AlertNotification → M AlertNotification
  create_notification n = exec env λ db.
      let stored = record n { id = db.next_id } in
      (
        ok stored,
        record db { notifications = db.notifications ++ stored ∷ []; next_id = db.next_id + 1 },
      )

  unfoldable pub update_notification : AlertNotification → M (Unit {0})
  unfolding set_outcome
  update_notification n =
      exec env λ db. (ok tt, record db { notifications = map (set_outcome n) db.notifications })

  -- `AcquireAlertLock`: the insertion and the check.
  unfoldable pub insert_lock : AlertLock → M (Unit {0})
  insert_lock lock = exec_now env λ now db. (ok tt, record db { locks = upsert now lock db.locks })

  unfoldable pub check_lock : AlertLock → M Bool
  check_lock lock = exec_now env λ now db.
      (or_err (is_holder lock.instance_id (holder now lock.alert_id db.locks)) no_rows, db)

  unfoldable pub acquire_lock : AlertLock → M Bool
  unfolding insert_lock check_lock
  acquire_lock lock = do insert_lock lock; check_lock lock

  unfoldable pub release_lock : ℕ → Bytes → M (Unit {0})
  release_lock alert_id instance_id =
      exec env λ db. (ok tt, record db { locks = release alert_id instance_id db.locks })

  unfoldable pub cleanup_locks : ℕ → M (Unit {0})
  cleanup_locks now = exec env λ db. (ok tt, record db { locks = cleanup now db.locks })

  -- `ListIssues` with project ids and a range, both ends included.
  unfoldable pub list_issues : List ℕ → ℕ → ℕ → M (List Issue)
  list_issues project_ids from to = exec env λ db. (
    ok (
        filter
          (λ i.
            has_id project_ids i.project_id
            && (leb from i.last_seen && leb i.last_seen to
                || leb from i.first_seen && leb i.first_seen to))
          db.issues),
    db,
  )

  unfoldable pub get_project : ℕ → M Project
  get_project project_id =
      exec env (λ db. (or_err (find? (λ p. p.id == project_id) db.projects) project_not_found, db))

  unfoldable pub list_teams : ℕ → M (List Team)
  unfolding joined_teams
  list_teams user_id = exec env (λ db. (ok (joined_teams user_id db), db))

  -- `ListProjects` with no name. The query is built with one placeholder fewer than there are
  -- teams repeated, and a negative count panics.
  unfoldable pub list_projects : List ℕ → M (List Project)
  list_projects [] db = (err panicked, db)
  list_projects (t ∷ ts) db =
      exec env (λ db. (ok (filter (λ p. has_id (t ∷ ts) p.team_id) db.projects), db)) db
