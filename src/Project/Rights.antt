-- ===== src/Project/Rights.antt =====
-- Who may change what, in internal/svc/project/project.go.
use warnly.Base.{
  ℕ, ◌+◌, ◌≡◌, refl, sym, ap, subst, ◌∙◌, Bool, true, false, not, ◌⊎◌, ◌↔◌, inl, inr, none, some,
  List, ◌==◌, filter, find?, any, Result, ok, err, ◌>>=◌, Bool-cases, Option-cases,
}
use warnly.Db.Tables.{
  Db, Project, Teammate, Assignment, exec, statement_failed, project_not_found, read_clock,
}
use warnly.Db.Statements.{joined_teams, list_teams, get_project}
use warnly.Db.Board.{delete_project_row, create_assignment, upsert_assignment}
use warnly.Service.Alerts.{has_access}
use warnly.Project.Types.{
  ProjectService, ProjectError, P, store, not_a_teammate, from_store, check_that,
}
use warnly.Project.Projects.{get_user_project, delete_project, list_teammates, validate_teammate}
use warnly.Project.Threads.{AssignIssueRequest, assign_issue}
use warnly.Project.Reads.{
  counted, reads_then, from_store-state, Reads-get_user_project, Reads-list_teammates,
  Reads-read_clock,
}

-- The project of that id is there, and its team is among those listed for the user.
abbrev pub IsShared : ℕ → ℕ → Db → Project → Type 0
IsShared project_id user_id db project =
    (find? (λ p. p.id == project_id) db.projects ≡ some project)
    × (has_access (joined_teams user_id db) project.team_id ≡ true)

module _ (svc : ProjectService) (project_id user_id : ℕ) where
  get_user_project-cases :
      (db : Db)
      → ((project : Project) × IsShared project_id user_id db project
          × (get_user_project svc project_id user_id db
              ≡ (ok project, counted (db.statements + 1 + 1) db.readings db)))
        ⊎ ((e : ProjectError) × (n : ℕ) × (get_user_project svc project_id user_id db
              ≡ (err e, counted n db.readings db)))
  unfolding get_user_project from_store get_project list_teams exec
  get_user_project-cases db = elim (Bool-cases (svc.env.fails db.statements)) [
    | inl fails ↦ inr (
      store statement_failed,
      db.statements + 1,
      rw (fails, get_user_project, from_store, list_teams, exec) refl,
    )
    | inr runs ↦ elim (Bool-cases (svc.env.fails (db.statements + 1))) [
      | inl fails ↦ inr (
        store statement_failed,
        db.statements + 1 + 1,
        rw (runs, fails, get_user_project, from_store, get_project, list_teams, exec) refl,
      )
      | inr both ↦ elim (Option-cases (find? (λ p. p.id == project_id) db.projects)) [
        | inl missing ↦ inr (
          store project_not_found,
          db.statements + 1 + 1,
          rw (runs, both, missing, get_user_project, from_store, get_project, list_teams, exec)
              refl,
        )
        | inr (project, found) ↦
            elim (Bool-cases (has_access (joined_teams user_id db) project.team_id)) [
              | inl may ↦ inl (
                project,
                (found, may),
                rw
                    (
                      runs, both, found, may, get_user_project, from_store, get_project, list_teams,
                      exec,
                    )
                    refl,
              )
              | inr denied ↦ inr (
                store project_not_found,
                db.statements + 1 + 1,
                rw
                    (
                      runs, both, found, denied, get_user_project, from_store, get_project,
                      list_teams, exec,
                    )
                    refl,
              )
            ]
      ]
    ]
  ]

abbrev result_ok : {A : Type 0} → A → Result ProjectError A
result_ok x = ok x

ok_inj : {A : Type 0} {x y : A} → result_ok x ≡ result_ok y → x ≡ y
ok_inj h = cc

err_ok : {A B : Type 0} {e : ProjectError} {a : A} → err e ≡ result_ok a → B
err_ok h = cc

get_user_project-ok :
    (svc : ProjectService) (project_id user_id : ℕ) (db : Db) (project : Project)
    → (get_user_project svc project_id user_id db).0 ≡ ok project
    → IsShared project_id user_id db project
get_user_project-ok svc project_id user_id db project h =
    elim (get_user_project-cases svc project_id user_id db) [
      | inl (p, shared, e) ↦
          subst (IsShared project_id user_id db)
            (ok_inj (sym (ap (λ (r : Result ProjectError Project × Db). r.0) e) ∙ h)) shared
      | inr (e, n, q) ↦ err_ok (sym (ap (λ (r : Result ProjectError Project × Db). r.0) q) ∙ h)
    ]

-- The state after a step and the check that follows it.
check_that-state :
    {A : Type 0} (Q : Db → Type 0) (b : Bool) (e : ProjectError) (k : Unit {0} → P A) (db : Db)
    → Q db
    → (b ≡ true → Q (k tt db).1)
    → Q ((check_that b e >>= k) db).1
check_that-state Q true e k db kept rest = rest refl
check_that-state Q false e k db kept rest = kept

-- What a deletion of a project may leave.
abbrev pub IsProjectDeletion : ℕ → ℕ → Db → Db → Type 0
IsProjectDeletion project_id user_id db db' =
    (db'.projects ≡ db.projects)
    ⊎ ((project : Project) × IsShared project_id user_id db project
        × (db'.projects ≡ filter (λ p. not (p.id == project_id)) db.projects))

module _ (svc : ProjectService) where
  delete_project_row-projects :
      (project_id : ℕ) (db : Db)
      → ((delete_project_row svc.env project_id db).1.projects ≡ db.projects)
        ⊎ ((delete_project_row svc.env project_id db).1.projects
            ≡ filter (λ p. not (p.id == project_id)) db.projects)
  unfolding delete_project_row exec
  delete_project_row-projects project_id db = elim (Bool-cases (svc.env.fails db.statements)) [
    | inl fails ↦ inl (rw (fails, delete_project_row, exec) refl)
    | inr runs ↦ inr (rw (runs, delete_project_row, exec) refl)
  ]

  -- Whatever statements fail, a deletion leaves the table of projects as it was, or takes away the
  -- rows of that id, where the project was there and its team is among those that the store lists
  -- for the user.
  pub delete_project_access :
      (project_id user_id : ℕ) (db : Db)
      → IsProjectDeletion project_id user_id db (delete_project svc project_id user_id db).1
  unfolding delete_project
  delete_project_access project_id user_id db =
      reads_then (IsProjectDeletion project_id user_id db) (get_user_project svc project_id user_id)
        _ db (Reads-get_user_project svc project_id user_id) (λ n r. inl refl)
        (λ project n r got.
          from_store-state (IsProjectDeletion project_id user_id db)
            (delete_project_row svc.env project_id) (counted n r db)
            (elim (delete_project_row-projects project_id (counted n r db)) [
              | inl same ↦ inl same
              | inr gone ↦
                  inr (project, get_user_project-ok svc project_id user_id db project got, gone)
            ]))

-- What an assignment may leave: the user it goes to is one of those listed as teammates of the
-- user who makes it.
abbrev pub IsAssigned : ProjectService → AssignIssueRequest → Db → Db → Type 0
unfolding upsert_assignment
IsAssigned svc req db db' =
    (db'.assignments ≡ db.assignments)
    ⊎ ((teammates : List Teammate) × ((list_teammates svc req.by_user_id db).0 ≡ ok teammates)
        × (any (λ (t : Teammate). t.id == req.user_id) teammates ≡ true)
        × (now : ℕ) × (db'.assignments
            ≡ upsert_assignment
                (record {
                  issue_id = req.issue_id;
                  assigned_to_user_id = some req.user_id;
                  assigned_to_team_id = none;
                  assigned_by_user_id = req.by_user_id;
                  assigned_at = now;
                })
                db.assignments))

module _ (svc : ProjectService) where
  create_assignment-assignments :
      (a : Assignment) (db : Db)
      → ((create_assignment svc.env a db).1.assignments ≡ db.assignments)
        ⊎ ((create_assignment svc.env a db).1.assignments ≡ upsert_assignment a db.assignments)
  unfolding create_assignment exec
  create_assignment-assignments a db = elim (Bool-cases (svc.env.fails db.statements)) [
    | inl fails ↦ inl (rw (fails, create_assignment, exec) refl)
    | inr runs ↦ inr (rw (runs, create_assignment, exec) refl)
  ]

  -- Whatever statements fail, an assignment leaves the table as it was, or sets the row of the
  -- issue, where the user to whom it is given is among the teammates listed for the user.
  pub assign_issue_teammate :
      (req : AssignIssueRequest) (db : Db) → IsAssigned svc req db (assign_issue svc req db).1
  unfolding assign_issue validate_teammate IsAssigned
  assign_issue_teammate req db =
      reads_then (IsAssigned svc req db) (list_teammates svc req.by_user_id) _ db
        (Reads-list_teammates svc req.by_user_id) (λ n r. inl refl)
        (λ teammates n r got.
          check_that-state (IsAssigned svc req db)
            (any (λ (t : Teammate). t.id == req.user_id) teammates) not_a_teammate _
            (counted n r db) (inl refl)
            (λ member.
              reads_then (IsAssigned svc req db) (from_store (read_clock svc.env)) _
                (counted n r db) (Reads-read_clock svc) (λ n r. inl refl)
                (λ now n r _.
                  from_store-state (IsAssigned svc req db) (create_assignment svc.env _)
                    (counted n r db)
                    (elim (create_assignment-assignments _ (counted n r db)) [
                      | inl same ↦ inl same
                      | inr set ↦ inr (teammates, got, member, now, set)
                    ]))))

module _ (svc : ProjectService) (runs : (n : ℕ) → svc.env.fails n ≡ false) where
  pub get_user_project-runs :
      (project_id user_id : ℕ) (db : Db) (project : Project)
      → IsShared project_id user_id db project
      → get_user_project svc project_id user_id db
        ≡ (ok project, counted (db.statements + 1 + 1) db.readings db)
  unfolding get_user_project from_store get_project list_teams exec
  get_user_project-runs project_id user_id db project (found, may) =
      rw
        (
          runs db.statements,
          runs (db.statements + 1),
          found,
          may,
          get_user_project,
          from_store,
          get_project,
          list_teams,
          exec,
        )
        refl

-- Where no statement fails, the service gives a user exactly the project of the id asked for, if
-- its team is among those that the store lists for the user.
pub get_user_project_iff :
    (svc : ProjectService) (project_id user_id : ℕ) (db : Db) (project : Project)
    → ((n : ℕ) → svc.env.fails n ≡ false)
    → ((get_user_project svc project_id user_id db).0 ≡ ok project)
      ↔ IsShared project_id user_id db project
get_user_project_iff svc project_id user_id db project runs = (
  get_user_project-ok svc project_id user_id db project,
  λ shared.
      ap (λ (r : Result ProjectError Project × Db). r.0)
        (get_user_project-runs svc runs project_id user_id db project shared),
)
