-- ===== src/Service/Tests.antt =====
-- The theorems on alerts at two teams and one user.
use warnly.Base.{
  ◌+◌, ◌≡◌, ◌⊎◌, refl, true, false, none, [], ◌∷◌, Bytes, text, All, find?, ok, bytes_eq,
}
use warnly.Base.Int.{pos}
use warnly.Alert.{Alert, active, occurrences, five_min}
use warnly.Db.Tables.{Db, Env, Team, Membership, Project, exec}
use warnly.Db.Statements.{
  joined_teams, update_rows, list_teams, list_alerts, list_projects, matching_alerts, in_teams,
  project_named,
}
use warnly.Service.Alerts.{
  AlertService, UpdateAlertRequest, ListAlertsRequest, ListAlertsResult, has_access, edited,
  get_user_alert, update_user_alert, list_user_alerts, from_store, requested_teams,
}
use warnly.Service.Access.{Visible, update_user_alert_access}
use warnly.Service.Listing.{list_user_alerts_access}
use warnly.Service.Strangers.{get_user_alert_stranger}

abbrev env : Env
env = record { fails = λ n. false; db_now = λ n. 1000 + n; clock = λ n. 1000; counts = λ a b. true }

abbrev service : AlertService
service = record { env = env; itoa = λ z. text "10" }

abbrev alert : Alert
alert = record {
  created_at = 1;
  updated_at = 1;
  last_triggered_at = none;
  resolved_at = none;
  notification_sent_at = none;
  rule_name = text "rule";
  description = [];
  status = active;
  id = 1;
  project_id = 2;
  team_id = 4;
  threshold = pos 10;
  condition = occurrences;
  timeframe = five_min;
  high_priority = false;
}

abbrev own : Team
own = record { id = 3; name = text "own"; owner_id = 7; created_at = 1 }

abbrev other_team : Team
other_team = record { id = 4; name = text "other"; owner_id = 8; created_at = 1 }

abbrev member : Membership
member = record { user_id = 7; team_id = 3 }

abbrev project : Project
project = record {
  id = 2;
  name = text "shop";
  team_id = 4;
  created_at = 0;
  user_id = 7;
  platform = 1;
  key = text "k";
}

abbrev tables : Db
tables = record {
  alerts = alert ∷ [];
  channels = [];
  webhooks = [];
  notifications = [];
  locks = [];
  issues = [];
  projects = project ∷ [];
  teams = own ∷ other_team ∷ [];
  memberships = member ∷ [];
  users = [];
  messages = [];
  mentions = [];
  assignments = [];
  next_id = 10;
  statements = 0;
  readings = 0;
}

abbrev edit : UpdateAlertRequest
edit = record {
  user_id = 7;
  rule_name = text "new";
  status = active;
  alert_id = 1;
  threshold = pos 20;
  condition = occurrences;
  timeframe = five_min;
  high_priority = true;
}

update_user_alert_access_example :
    let db' = (update_user_alert service edit tables).1 in
    (db'.alerts ≡ alert ∷ [])
    ⊎ ((a : Alert) × Visible 1 7 tables a
        × (db'.alerts ≡ update_rows (edited service edit 1000 a) (alert ∷ [])))
update_user_alert_access_example = update_user_alert_access service edit tables

teams_have : has_access tables.teams 4 ≡ true
unfolding has_access
teams_have = refl

get_user_alert_stranger_example : (get_user_alert service 1 7 tables).0 ≡ ok alert
get_user_alert_stranger_example =
    get_user_alert_stranger service 1 7 tables alert (λ n. refl) refl teams_have refl

abbrev by_name : Bytes → ListAlertsRequest
by_name team = record { user_id = 7; team_name = team; project_name = []; offset = 0; limit = 5 }

no_such_team : find? (λ (t : Team). bytes_eq t.name (text "nobody")) (joined_teams 7 tables) ≡ none
unfolding joined_teams
no_such_team = refl

abbrev page : ListAlertsResult
page = record {
  request = by_name (text "other");
  alerts = alert ∷ [];
  projects = project ∷ [];
  teams = own ∷ other_team ∷ [];
  total_alerts = 1;
}

listed :
    list_user_alerts service (by_name (text "other")) tables
    ≡ (ok page, record tables { statements = 4 })
unfolding list_user_alerts from_store list_teams exec joined_teams requested_teams list_alerts
    matching_alerts in_teams project_named list_projects
listed = refl

list_user_alerts_access_example :
    All (λ (a : Alert). has_access (joined_teams 7 tables) a.team_id ≡ true) (alert ∷ [])
list_user_alerts_access_example =
    list_user_alerts_access service (by_name (text "other")) tables
      (record tables { statements = 4 }) page listed
