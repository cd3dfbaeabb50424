-- ===== src/Service/Alerts.antt =====
-- internal/svc/alert/alert.go.
use warnly.Base.{
  ℕ, Bool, true, false, not, List, [], ◌∷◌, ◌++◌, map, if◌then◌else◌, ◌==◌, Option, none, some,
  Bytes, text, bytes_eq, is_empty, any, find?, Result, ok, err, Action, pure, fail, ◌>>=◌, ◌>>◌,
}
use warnly.Base.Int.{ℤ}
use warnly.Alert.{
  Alert, AlertStatus, active, other, AlertCondition, occurrences, users, other_condition,
  AlertTimeframe, one_min, five_min, fifteen_min, one_hour, one_day, one_week, thirty_days,
  other_timeframe,
}
use warnly.Db.Tables.{Db, Env, DbError, M, Project, Team, read_clock}
use warnly.Db.Statements.{
  list_alerts, create_alert, get_alert, update_alert, delete_alert, list_projects, get_project,
  list_teams,
}

pub data ServiceError : Type 0 where
  store : DbError → ServiceError
  no_project_access no_alert_access : ServiceError

abbrev pub S : Type 0 → Type 0
S A = Action Db ServiceError A

abbrev pub lift_store : {A : Type 0} → Result DbError A × Db → Result ServiceError A × Db
lift_store (ok a, db) = (ok a, db)
lift_store (err e, db) = (err (store e), db)

-- A call of a store, its error returned.
unfoldable pub from_store : {A : Type 0} → M A → S A
from_store m db = lift_store (m db)

pub record ListAlertsRequest : Type 0 where
  pub user_id : ℕ
  pub team_name : Bytes
  pub project_name : Bytes
  pub offset : ℕ
  pub limit : ℕ

pub record ListAlertsResult : Type 0 where
  pub request : ListAlertsRequest
  pub alerts : List Alert
  pub projects : List Project
  pub teams : List Team
  pub total_alerts : ℕ

pub record CreateAlertRequest : Type 0 where
  pub user_id : ℕ
  pub rule_name : Bytes
  pub project_id : ℕ
  pub threshold : ℤ
  pub condition : AlertCondition
  pub timeframe : AlertTimeframe
  pub high_priority : Bool

pub record UpdateAlertRequest : Type 0 where
  pub user_id : ℕ
  pub rule_name : Bytes
  pub status : AlertStatus
  pub alert_id : ℕ
  pub threshold : ℤ
  pub condition : AlertCondition
  pub timeframe : AlertTimeframe
  pub high_priority : Bool

unfoldable pub get_condition_text : AlertCondition → Bytes
get_condition_text occurrences = text "occurrences"
get_condition_text users = text "users affected"
get_condition_text (other_condition n) = text "occurrences"

unfoldable pub get_timeframe_text : AlertTimeframe → Bytes
get_timeframe_text one_min = text "1 minute"
get_timeframe_text five_min = text "5 minutes"
get_timeframe_text fifteen_min = text "15 minutes"
get_timeframe_text one_hour = text "1 hour"
get_timeframe_text one_day = text "1 day"
get_timeframe_text one_week = text "1 week"
get_timeframe_text thirty_days = text "30 days"
get_timeframe_text (other_timeframe n) = text "1 hour"

-- The loop for `hasAccess`.
unfoldable pub has_access : List Team → ℕ → Bool
has_access teams team_id = any (λ (t : Team). t.id == team_id) teams

abbrev pub named_team : Option Team → List ℕ
named_team none = []
named_team (some t) = t.id ∷ []

-- The teams to list: all of the user's, or the first of the requested name.
unfoldable pub requested_teams : List Team → Bytes → List ℕ
requested_teams teams name =
    if not (is_empty name)
    then named_team (find? (λ (t : Team). bytes_eq t.name name) teams)
    else map (λ (t : Team). t.id) teams

-- An empty status.
abbrev pub or_kept : AlertStatus → AlertStatus → AlertStatus
or_kept (other []) kept = kept
or_kept status kept = status

abbrev pub guard : Bool → ServiceError → S (Unit {0})
guard true e = pure tt
guard false e = fail e

-- The service with its stores and clock; `itoa` is the verb `%d`.
pub record AlertService : Type 0 where
  pub env : Env
  pub itoa : ℤ → Bytes

module _ (svc : AlertService) where
  unfoldable pub describe : ℤ → AlertCondition → AlertTimeframe → Bytes
  unfolding get_condition_text get_timeframe_text
  describe threshold condition timeframe =
      text "Alert when more than "
      ++ svc.itoa threshold
      ++ text " "
      ++ get_condition_text condition
      ++ text " in "
      ++ get_timeframe_text timeframe

  -- The alert of a given id, to a user who may see its team.
  unfoldable pub visible_alert : ℕ → ℕ → S Alert
  visible_alert alert_id user_id = do
    alert ← from_store (get_alert svc.env alert_id)
    teams ← from_store (list_teams svc.env user_id)
    guard (has_access teams alert.team_id) no_alert_access
    pure alert

  unfoldable pub list_user_alerts : ListAlertsRequest → S ListAlertsResult
  list_user_alerts req = do
    teams ← from_store (list_teams svc.env req.user_id)
    let team_ids = requested_teams teams req.team_name
    page ← from_store (list_alerts svc.env team_ids req.project_name req.offset req.limit)
    projects ← from_store (list_projects svc.env team_ids)
    pure (record {
      request = req;
      alerts = page.0;
      projects = projects;
      teams = teams;
      total_alerts = page.1;
    })

  unfoldable pub create_user_alert : CreateAlertRequest → S Alert
  create_user_alert req = do
    project ← from_store (get_project svc.env req.project_id)
    teams ← from_store (list_teams svc.env req.user_id)
    guard (has_access teams project.team_id) no_project_access
    now ← from_store (read_clock svc.env)
    from_store (
        create_alert svc.env (record {
          created_at = now;
          updated_at = now;
          last_triggered_at = none;
          resolved_at = none;
          notification_sent_at = none;
          rule_name = req.rule_name;
          description = describe req.threshold req.condition req.timeframe;
          status = active;
          id = 0;
          project_id = req.project_id;
          team_id = project.team_id;
          threshold = req.threshold;
          condition = req.condition;
          timeframe = req.timeframe;
          high_priority = req.high_priority;
        }))

  unfoldable pub edited : UpdateAlertRequest → ℕ → Alert → Alert
  edited req now alert = record alert {
    updated_at = now;
    rule_name = req.rule_name;
    threshold = req.threshold;
    condition = req.condition;
    timeframe = req.timeframe;
    high_priority = req.high_priority;
    status = or_kept req.status alert.status;
    description = describe req.threshold req.condition req.timeframe;
  }

  unfoldable pub update_user_alert : UpdateAlertRequest → S Alert
  update_user_alert req = do
    alert ← visible_alert req.alert_id req.user_id
    now ← from_store (read_clock svc.env)
    from_store (update_alert svc.env (edited req now alert))
    pure (edited req now alert)

  unfoldable pub delete_user_alert : ℕ → ℕ → S (Unit {0})
  delete_user_alert alert_id user_id = do
    alert ← visible_alert alert_id user_id
    from_store (delete_alert svc.env alert_id)

  unfoldable pub get_user_alert : ℕ → ℕ → S Alert
  unfolding visible_alert
  get_user_alert alert_id user_id = visible_alert alert_id user_id
