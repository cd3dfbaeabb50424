-- ===== src/Project/Foreign.antt =====
-- What `GetDiscussion` shows of issues, whichever project they belong to.
use warnly.Base.{ℕ, ◌+◌, ◌≡◌, refl, true, false, some, List, [], ◌∷◌, ◌==◌, find?, ok, pure}
use warnly.Db.Tables.{Db, Issue, Project, Team, exec}
use warnly.Db.Statements.{joined_teams, list_teams}
use warnly.Db.Board.{
  joined_teammates, joined_messages, list_teammates_of, list_issue_messages, get_issue_by_id,
}
use warnly.Service.Alerts.{has_access}
use warnly.Project.Types.{ProjectService, from_store}
use warnly.Project.Projects.{extract_team_ids, some_teams, list_teammates}
use warnly.Project.Threads.{get_discussion}
use warnly.Project.Reads.{counted}
use warnly.Project.Rights.{IsShared, get_user_project-runs}

module _ (svc : ProjectService) (runs : (n : ℕ) → svc.env.fails n ≡ false) where
  some_teams-shared :
      (teams : List Team) (n : ℕ)
      → has_access teams n ≡ true
      → some_teams svc teams ≡ pure (extract_team_ids teams)
  unfolding some_teams has_access
  some_teams-shared [] n h = cc
  some_teams-shared (t ∷ ts) n h = refl

  list_teammates-runs :
      (user_id n : ℕ) (db : Db)
      → has_access (joined_teams user_id db) n ≡ true
      → list_teammates svc user_id db ≡ (
        ok (joined_teammates (extract_team_ids (joined_teams user_id db)) db),
        counted (db.statements + 1 + 1) db.readings db,
      )
  unfolding list_teammates from_store list_teams list_teammates_of exec joined_teams
      joined_teammates
  list_teammates-runs user_id n db h =
      rw
        (
          runs db.statements,
          some_teams-shared (joined_teams user_id db) n h,
          runs (db.statements + 1),
          list_teammates,
          from_store,
          list_teams,
          list_teammates_of,
          exec,
        )
        refl

  get_issue-runs :
      (issue_id : ℕ) (issue : Issue) (db : Db)
      → find? (λ i. i.id == issue_id) db.issues ≡ some issue
      → from_store (get_issue_by_id svc.env issue_id) db
        ≡ (ok issue, counted (db.statements + 1) db.readings db)
  unfolding from_store get_issue_by_id exec
  get_issue-runs issue_id issue db found =
      rw (runs db.statements, found, from_store, get_issue_by_id, exec) refl

  list_messages-runs :
      (issue_id : ℕ) (db : Db)
      → from_store (list_issue_messages svc.env issue_id) db
        ≡ (ok (joined_messages issue_id db), counted (db.statements + 1) db.readings db)
  unfolding from_store list_issue_messages exec joined_messages
  list_messages-runs issue_id db =
      rw (runs db.statements, from_store, list_issue_messages, exec) refl

-- Where no statement fails, a user who may see some project is shown, in its name, the discussion
-- of any issue that there is: the issue's own project is not looked at.
pub get_discussion_any_issue :
    (svc : ProjectService) (project_id issue_id user_id : ℕ) (db : Db) (project : Project)
    (issue : Issue)
    → ((n : ℕ) → svc.env.fails n ≡ false)
    → IsShared project_id user_id db project
    → find? (λ i. i.id == issue_id) db.issues ≡ some issue
    → (get_discussion svc project_id issue_id user_id db).0
      ≡ ok (record {
        issue_first_seen = some issue.first_seen;
        project_id = project.id;
        issue_id = issue_id;
        teammates = joined_teammates (extract_team_ids (joined_teams user_id db)) db;
        messages = joined_messages issue_id db;
      })
unfolding get_discussion joined_messages joined_teammates joined_teams
get_discussion_any_issue svc project_id issue_id user_id db project issue runs shared found =
    rw
      (
        get_discussion,
        get_user_project-runs svc runs project_id user_id db project shared,
        list_teammates-runs svc runs user_id project.team_id
            (counted (db.statements + 1 + 1) db.readings db) shared.1,
        get_issue-runs svc runs issue_id issue
            (counted (db.statements + 1 + 1 + 1 + 1) db.readings db) found,
        list_messages-runs svc runs issue_id
            (counted (db.statements + 1 + 1 + 1 + 1 + 1) db.readings db),
      )
      refl
