-- ===== src/Service/Strangers.antt =====
-- What the missing condition of the join in internal/mysql/team.go, and the missing test for an
-- empty list of teams in internal/mysql/project.go, come to in internal/svc/alert/alert.go.
use warnly.Base.{
  ℕ, ◌+◌, ◌≡◌, refl, subst, Bool, true, false, List, [], ◌∷◌, ◌++◌, if◌then◌else◌, ◌==◌, none, some,
  any, find?, flat_map, ok, err, Bool-cases, inl, inr, arith, is_empty, bytes_eq,
}
use warnly.Alert.{Alert}
use warnly.Db.Tables.{Db, Team, Membership, exec, panicked}
use warnly.Db.Statements.{joined_teams, list_teams, list_alerts, list_projects}
use warnly.Service.Alerts.{
  AlertService, store, from_store, has_access, get_user_alert, ListAlertsRequest, list_user_alerts,
  requested_teams,
}
use warnly.Service.Access.{get_user_alert_lem}

any-append :
    {A : Type 0} (p : A → Bool) (xs ys : List A) → any p xs ≡ true → any p (xs ++ ys) ≡ true
any-append p [] ys h = cc
any-append p (x ∷ xs) ys h = ground (arith, any-append p xs ys)

any-append_right :
    {A : Type 0} (p : A → Bool) (xs ys : List A) → any p ys ≡ true → any p (xs ++ ys) ≡ true
any-append_right p [] ys h = h
any-append_right p (x ∷ xs) ys h = ground (arith, any-append_right p xs ys)

joined :
    (u : ℕ) (ms : List Membership) (teams : List Team) (team_id : ℕ)
    → any (λ (m : Membership). m.user_id == u) ms ≡ true
    → has_access teams team_id ≡ true
    → has_access (flat_map (λ (tr : Membership). if tr.user_id == u then teams else []) ms) team_id
      ≡ true
unfolding has_access
joined u [] teams team_id h k = cc
joined u (m ∷ ms) teams team_id h k = elim (Bool-cases (m.user_id == u)) [
  | inl own ↦ rw own (any-append (λ (t : Team). t.id == team_id) teams _ k)
  | inr other ↦ rw other (
      joined u ms teams team_id
        (subst (λ b. (if b then true else any (λ (x : Membership). x.user_id == u) ms) ≡ true) other
          h)
        k)
]

-- Where no statement fails, a user who belongs to any team at all is given the alert of any
-- existing team.
pub get_user_alert_stranger :
    (svc : AlertService) (alert_id user_id : ℕ) (db : Db) (alert : Alert)
    → ((n : ℕ) → svc.env.fails n ≡ false)
    → any (λ (m : Membership). m.user_id == user_id) db.memberships ≡ true
    → has_access db.teams alert.team_id ≡ true
    → find? (λ a. a.id == alert_id) db.alerts ≡ some alert
    → (get_user_alert svc alert_id user_id db).0 ≡ ok alert
unfolding joined_teams
get_user_alert_stranger svc alert_id user_id db alert runs member exists found =
    (get_user_alert_lem svc alert_id user_id db alert).1 runs
      (found, joined user_id db.memberships db.teams alert.team_id member exists)

-- Where no statement fails, a list asked for a team name that no listed team has ends in a panic.
pub list_user_alerts_unknown_team :
    (svc : AlertService) (req : ListAlertsRequest) (db : Db)
    → ((n : ℕ) → svc.env.fails n ≡ false)
    → is_empty req.team_name ≡ false
    → find? (λ (t : Team). bytes_eq t.name req.team_name) (joined_teams req.user_id db) ≡ none
    → (list_user_alerts svc req db).0 ≡ err (store panicked)
unfolding list_user_alerts from_store list_teams exec requested_teams list_alerts list_projects
list_user_alerts_unknown_team svc req db runs given unknown =
    let one = runs db.statements in
    let two = runs (db.statements + 1) in
    let three = runs (db.statements + 1 + 1) in
    rw (one, list_user_alerts, from_store, list_teams, exec)
      (rw (given, unknown, requested_teams)
        (rw (two, list_alerts, exec) (rw (three, list_projects, exec) refl)))
