-- ===== src/Project/Reads.antt =====
-- The steps of internal/svc/project/project.go that only read, and what a method does after them.
use warnly.Base.{
  ℕ, ◌+◌, ◌≡◌, refl, sym, ap, subst, ◌∙◌, Bool, true, false, List, [], ◌∷◌, ◌==◌, find?, Result, ok,
  err, or_err, Action, and_then, pure, ◌>>=◌, inl, inr, Bool-cases,
}
use warnly.Db.Tables.{
  Db, Env, DbError, M, Project, Team, Teammate, exec, read_clock, project_not_found,
}
use warnly.Db.Statements.{joined_teams, list_teams, get_project}
use warnly.Db.Board.{joined_teammates, joined_messages, list_teammates_of, list_issue_messages}
use warnly.Service.Alerts.{has_access}
use warnly.Project.Types.{
  ProjectService, ProjectError, store, not_a_teammate, lift_store, from_store, check_that,
}
use warnly.Project.Projects.{get_user_project, some_teams, list_teammates, validate_teammate}
use warnly.Project.Threads.{discussion_of}

-- The same tables, after some more statements and readings of the clock.
abbrev pub counted : ℕ → ℕ → Db → Db
counted n r db = record db { statements = n; readings = r }

abbrev pub Reads : {E A : Type 0} → Action Db E A → Type 0
Reads m = (db : Db) → (n : ℕ) × (r : ℕ) × ((m db).1 ≡ counted n r db)

and_then-Reads :
    {E A B : Type 0} (p : Result E A × Db) (k : A → Action Db E B) (db : Db)
    → ((n : ℕ) × (r : ℕ) × (p.1 ≡ counted n r db))
    → ((a : A) → Reads (k a))
    → (n : ℕ) × (r : ℕ) × ((and_then p k).1 ≡ counted n r db)
and_then-Reads (err e, d) k db h hk = h
and_then-Reads (ok a, d) k db (n, r, q) hk =
    let (n', r', q') = hk a d in (n', r', q' ∙ ap (counted n' r') q)

pub Reads->>= :
    {E A B : Type 0} (m : Action Db E A) (k : A → Action Db E B)
    → Reads m
    → ((a : A) → Reads (k a))
    → Reads (m >>= k)
Reads->>= m k hm hk db = and_then-Reads (m db) k db (hm db) hk

pub Reads-exec :
    {A : Type 0} (env : Env) (answer : Db → Result DbError A)
    → Reads (exec env (λ db. (answer db, db)))
unfolding exec
Reads-exec env answer db = (
  db.statements + 1,
  db.readings,
  elim (Bool-cases (env.fails db.statements)) [
    | inl fails ↦ rw (fails, exec) refl
    | inr runs ↦ rw (runs, exec) refl
  ],
)

lift_store-state : {A : Type 0} (p : Result DbError A × Db) → (lift_store p).1 ≡ p.1
lift_store-state (ok a, db) = refl
lift_store-state (err e, db) = refl

pub Reads-from_store : {A : Type 0} (m : M A) → Reads m → Reads (from_store m)
unfolding from_store
Reads-from_store m h db = let (n, r, q) = h db in (n, r, lift_store-state (m db) ∙ q)

-- A value, or an error, at once.
pub unchanged : (db : Db) → (n : ℕ) × (r : ℕ) × (db ≡ counted n r db)
unchanged db = (db.statements, db.readings, refl)

pub Reads-check_that : (b : Bool) (e : ProjectError) → Reads (check_that b e)
Reads-check_that true e = unchanged
Reads-check_that false e = unchanged

-- After a step that only reads, a property of the tables holds where it held before, and where it
-- holds after the rest.
and_then-reads :
    {E A B : Type 0} (Q : Db → Type 0) (p : Result E A × Db) (k : A → Action Db E B) (db : Db)
    → ((n : ℕ) × (r : ℕ) × (p.1 ≡ counted n r db))
    → ((n r : ℕ) → Q (counted n r db))
    → ((a : A) (n r : ℕ) → p.0 ≡ ok a → Q (k a (counted n r db)).1)
    → Q (and_then p k).1
and_then-reads Q (err e, d) k db (n, r, q) kept rest = subst Q (sym q) (kept n r)
and_then-reads Q (ok a, d) k db (n, r, q) kept rest =
    subst (λ s. Q (k a s).1) (sym q) (rest a n r refl)

pub reads_then :
    {E A B : Type 0} (Q : Db → Type 0) (m : Action Db E A) (k : A → Action Db E B) (db : Db)
    → Reads m
    → ((n r : ℕ) → Q (counted n r db))
    → ((a : A) (n r : ℕ) → (m db).0 ≡ ok a → Q (k a (counted n r db)).1)
    → Q ((m >>= k) db).1
reads_then Q m k db h = and_then-reads Q (m db) k db (h db)

-- A step that only reads keeps a property of the tables.
and_then-then_reads :
    {E A B : Type 0} (Q : Db → Type 0) (p : Result E A × Db) (k : A → Action Db E B)
    → ((d : Db) (n r : ℕ) → Q d → Q (counted n r d))
    → ((a : A) → Reads (k a))
    → Q p.1
    → Q (and_then p k).1
and_then-then_reads Q (err e, d) k kept h q = q
and_then-then_reads Q (ok a, d) k kept h q = let (n, r, e) = h a d in subst Q (sym e) (kept d n r q)

pub then_reads :
    {E A B : Type 0} (Q : Db → Type 0) (m : Action Db E A) (k : A → Action Db E B) (db : Db)
    → ((d : Db) (n r : ℕ) → Q d → Q (counted n r d))
    → ((a : A) → Reads (k a))
    → Q (m db).1
    → Q ((m >>= k) db).1
then_reads Q m k db = and_then-then_reads Q (m db) k

pub from_store-state :
    {A : Type 0} (Q : Db → Type 0) (m : M A) (db : Db) → Q (m db).1 → Q (from_store m db).1
unfolding from_store
from_store-state Q m db q = subst Q (sym (lift_store-state (m db))) q

module _ (svc : ProjectService) where
  pub Reads-list_teams : (user_id : ℕ) → Reads (from_store (list_teams svc.env user_id))
  unfolding list_teams
  Reads-list_teams user_id =
      Reads-from_store _ (Reads-exec svc.env (λ db. ok (joined_teams user_id db)))

  pub Reads-get_project : (project_id : ℕ) → Reads (from_store (get_project svc.env project_id))
  unfolding get_project
  Reads-get_project project_id = Reads-from_store _ (
      Reads-exec svc.env
        (λ db. or_err (find? (λ p. p.id == project_id) db.projects) project_not_found))

  Reads-admit :
      (teams : List Team) (project : Project)
      → Reads (
          check_that (has_access teams project.team_id) (store project_not_found) >>= λ _.
          pure project)
  Reads-admit teams project =
      Reads->>= (check_that (has_access teams project.team_id) (store project_not_found))
        (λ _. pure project)
        (Reads-check_that (has_access teams project.team_id) (store project_not_found))
        (λ _. unchanged)

  pub Reads-get_user_project :
      (project_id user_id : ℕ) → Reads (get_user_project svc project_id user_id)
  unfolding get_user_project
  Reads-get_user_project project_id user_id =
      Reads->>= (from_store (list_teams svc.env user_id)) _ (Reads-list_teams user_id) (λ teams.
        Reads->>= (from_store (get_project svc.env project_id)) _ (Reads-get_project project_id)
          (Reads-admit teams))

  Reads-some_teams : (teams : List Team) → Reads (some_teams svc teams)
  unfolding some_teams
  Reads-some_teams [] = unchanged
  Reads-some_teams (t ∷ ts) = unchanged

  Reads-list_teammates_of : (ids : List ℕ) → Reads (from_store (list_teammates_of svc.env ids))
  unfolding list_teammates_of
  Reads-list_teammates_of ids =
      Reads-from_store (list_teammates_of svc.env ids)
        (Reads-exec svc.env (λ db. ok (joined_teammates ids db)))

  pub Reads-list_teammates : (user_id : ℕ) → Reads (list_teammates svc user_id)
  unfolding list_teammates
  Reads-list_teammates user_id =
      Reads->>= (from_store (list_teams svc.env user_id)) _ (Reads-list_teams user_id) (λ teams.
        Reads->>= (some_teams svc teams) _ (Reads-some_teams teams) Reads-list_teammates_of)

  Reads-list_issue_messages :
      (issue_id : ℕ) → Reads (from_store (list_issue_messages svc.env issue_id))
  unfolding list_issue_messages
  Reads-list_issue_messages issue_id =
      Reads-from_store (list_issue_messages svc.env issue_id)
        (Reads-exec svc.env (λ db. ok (joined_messages issue_id db)))

  pub Reads-discussion_of :
      (project_id issue_id : ℕ) (teammates : List Teammate)
      → Reads (discussion_of svc project_id issue_id teammates)
  unfolding discussion_of
  Reads-discussion_of project_id issue_id teammates =
      Reads->>= (from_store (list_issue_messages svc.env issue_id)) _
        (Reads-list_issue_messages issue_id) (λ messages. unchanged)

  pub Reads-validate_teammate :
      (teammates : List Teammate) (user_id : ℕ) → Reads (validate_teammate svc teammates user_id)
  unfolding validate_teammate
  Reads-validate_teammate teammates user_id = Reads-check_that _ not_a_teammate

  pub Reads-read_clock : Reads (from_store (read_clock svc.env))
  unfolding read_clock
  Reads-read_clock =
      Reads-from_store (read_clock svc.env) (λ db. (db.statements, db.readings + 1, refl))
