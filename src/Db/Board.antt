-- ===== src/Db/Board.antt =====
-- The statements of internal/mysql/project.go, team.go, issue.go, message.go and assingment.go that
-- the project service uses.
use warnly.Base.{
  ℕ, ◌+◌, Bool, true, not, ◌&&◌, ◌||◌, leb, Option, none, List, [], ◌∷◌, ◌++◌, map, if◌then◌else◌,
  ◌==◌, Bytes, is_empty, filter, find?, flat_map, length, ok, err, or_err,
}
use warnly.Db.Tables.{
  Issue, Project, Teammate, Message, Mention, Assignment, Db, Env, not_found, bad_rows_affected,
  panicked, M, exec,
}
use warnly.Db.Statements.{has_id}

pub record IssueMessage : Type 0 where
  pub created_at : ℕ
  pub username : Bytes
  pub content : Bytes
  pub id : ℕ
  pub user_id : ℕ

pub record MessageCount : Type 0 where
  pub issue_id : ℕ
  pub message_count : ℕ

pub record AssignedUser : Type 0 where
  pub issue_id : ℕ
  pub assigned_to_user_id : Option ℕ

-- FROM team_relation AS tr JOIN user AS u ON tr.user_id = u.id WHERE tr.team_id IN (…)
unfoldable pub joined_teammates : List ℕ → Db → List Teammate
joined_teammates team_ids db =
    flat_map
      (λ tr. if has_id team_ids tr.team_id then filter (λ u. u.id == tr.user_id) db.users else [])
      db.memberships

-- FROM message AS m JOIN user AS u ON m.user_id = u.id WHERE m.issue_id = ?: `messages` stands in
-- the order `created_at DESC`.
unfoldable pub joined_messages : ℕ → Db → List IssueMessage
joined_messages issue_id db =
    flat_map
      (λ m.
        if m.issue_id == issue_id
        then map
            (λ u. record {
              created_at = m.created_at;
              username = u.name;
              content = m.content;
              id = m.id;
              user_id = m.user_id;
            })
            (filter (λ u. u.id == m.user_id) db.users)
        else [])
      db.messages

unfoldable pub in_groups : List ℕ → Issue → Bool
in_groups [] i = true
in_groups (g ∷ gs) i = has_id (g ∷ gs) i.id

unfoldable pub messages_of : ℕ → List Message → ℕ
messages_of issue_id messages = length (filter (λ m. m.issue_id == issue_id) messages)

-- ON DUPLICATE KEY UPDATE, the key being the issue.
unfoldable pub upsert_assignment : Assignment → List Assignment → List Assignment
upsert_assignment a [] = a ∷ []
upsert_assignment a (row ∷ rows) =
    let rest = upsert_assignment a rows in
    if row.issue_id == a.issue_id
    then record row {
      assigned_to_user_id = a.assigned_to_user_id;
      assigned_to_team_id = none;
      assigned_by_user_id = a.assigned_by_user_id;
      assigned_at = a.assigned_at;
    }
      ∷ rows
    else row ∷ rest

-- What the statements of a unit of work do to the tables.
unfoldable pub insert_message : Message → Db → Db
insert_message m db = record db { messages = m ∷ db.messages }

unfoldable pub remove_message : ℕ → ℕ → Db → Db
remove_message message_id user_id db = record db {
  messages = filter (λ m. not (m.id == message_id && m.user_id == user_id)) db.messages;
}

unfoldable pub insert_mentions : List Mention → Db → Db
insert_mentions mentions db = record db { mentions = db.mentions ++ mentions }

unfoldable pub remove_mentions : ℕ → Db → Db
remove_mentions message_id db = record db {
  mentions = filter (λ m. not (m.message_id == message_id)) db.mentions;
}

module _ (env : Env) (like : Bytes → Bytes → Bool) where
  -- `buildListProjectsQuery`; `like` is MySQL's comparison of a name with `%name%`. A row is
  -- scanned into `id`, `name` and `platform`.
  unfoldable pub scan_project : Project → Project
  scan_project p = record {
    id = p.id;
    name = p.name;
    team_id = 0;
    created_at = 0;
    user_id = 0;
    platform = p.platform;
    key = [];
  }

  unfoldable pub list_projects_like : List ℕ → Bytes → M (List Project)
  unfolding scan_project
  list_projects_like [] name db = (err panicked, db)
  list_projects_like (t ∷ ts) name db =
      exec env
        (λ db. (
          ok (
              map scan_project (
                filter
                  (λ p.
                    has_id (t ∷ ts) p.team_id && (if is_empty name then true else like name p.name))
                  db.projects)),
          db,
        ))
        db

module _ (env : Env) where
  unfoldable pub insert_project : Project → M ℕ
  insert_project p = exec env λ db. (
    ok db.next_id,
    record db {
      projects = db.projects ++ record p { id = db.next_id } ∷ [];
      next_id = db.next_id + 1;
    },
  )

  unfoldable pub delete_project_row : ℕ → M (Unit {0})
  delete_project_row project_id = exec env λ db. (
    if length (filter (λ p. p.id == project_id) db.projects) == 1
        then ok tt
        else err bad_rows_affected,
    record db { projects = filter (λ p. not (p.id == project_id)) db.projects },
  )

  unfoldable pub get_issue_by_id : ℕ → M Issue
  get_issue_by_id issue_id =
      exec env (λ db. (or_err (find? (λ i. i.id == issue_id) db.issues) not_found, db))

  -- `ListIssues` with the condition on groups, which is left out where none is given.
  unfoldable pub list_group_issues : List ℕ → List ℕ → ℕ → ℕ → M (List Issue)
  unfolding in_groups
  list_group_issues [] groups from to db = (err panicked, db)
  list_group_issues (p ∷ ps) groups from to db =
      exec env
        (λ db. (
          ok (
              filter
                (λ i.
                  has_id (p ∷ ps) i.project_id
                  && (leb from i.last_seen && leb i.last_seen to
                      || leb from i.first_seen && leb i.first_seen to)
                  && in_groups groups i)
                db.issues),
          db,
        ))
        db

  -- An empty list gives `IN ()`, which MySQL refuses; the service asks with a list that is not empty.
  unfoldable pub list_teammates_of : List ℕ → M (List Teammate)
  unfolding joined_teammates
  list_teammates_of team_ids = exec env (λ db. (ok (joined_teammates team_ids db), db))

  unfoldable pub list_issue_messages : ℕ → M (List IssueMessage)
  unfolding joined_messages
  list_issue_messages issue_id = exec env (λ db. (ok (joined_messages issue_id db), db))

  unfoldable pub count_messages : ℕ → M ℕ
  unfolding messages_of
  count_messages issue_id = exec env (λ db. (ok (messages_of issue_id db.messages), db))

  -- FROM issue i LEFT JOIN message m WHERE i.id IN (…) GROUP BY i.id
  unfoldable pub count_messages_by_ids : List ℕ → M (List MessageCount)
  unfolding messages_of
  count_messages_by_ids [] db = (ok [], db)
  count_messages_by_ids (n ∷ ns) db =
      exec env
        (λ db. (
          ok (
              map (λ i. record { issue_id = i.id; message_count = messages_of i.id db.messages })
                (filter (λ i. has_id (n ∷ ns) i.id) db.issues)),
          db,
        ))
        db

  unfoldable pub create_assignment : Assignment → M (Unit {0})
  unfolding upsert_assignment
  create_assignment a =
      exec env λ db. (ok tt, record db { assignments = upsert_assignment a db.assignments })

  unfoldable pub delete_assignment_row : ℕ → M (Unit {0})
  delete_assignment_row issue_id = exec env λ db.
      (ok tt, record db { assignments = filter (λ a. not (a.issue_id == issue_id)) db.assignments })

  unfoldable pub list_assignments : List ℕ → M (List AssignedUser)
  list_assignments issue_ids = exec env λ db. (
    ok (
        map (λ a. record { issue_id = a.issue_id; assigned_to_user_id = a.assigned_to_user_id })
          (filter (λ a. has_id issue_ids a.issue_id) db.assignments)),
    db,
  )
