-- ===== src/Project/Threads.antt =====
-- The methods of internal/svc/project/project.go on the discussions and the assignments of issues.
use warnly.Base.{
  ℕ, ◌+◌, Option, none, some, List, [], ◌∷◌, map, if◌then◌else◌, ◌==◌, leb, Bytes, find?, ok, pure,
  ◌>>=◌, ◌>>◌,
}
use warnly.Db.Tables.{Issue, Teammate, Mention, read_clock, exec}
use warnly.Db.Board.{
  IssueMessage, AssignedUser, insert_message, remove_message, insert_mentions, remove_mentions,
  get_issue_by_id, list_issue_messages, create_assignment, delete_assignment_row, list_assignments,
}
use warnly.Db.UnitOfWork.{W, in_transaction, through_pool, start_unit}
use warnly.Project.Types.{ProjectService, P, from_store}
use warnly.Project.Projects.{get_user_project, list_teammates, validate_teammate}

pub record Discussion : Type 0 where
  pub issue_first_seen : Option ℕ
  pub project_id : ℕ
  pub issue_id : ℕ
  pub teammates : List Teammate
  pub messages : List IssueMessage

pub record DeleteMessageRequest : Type 0 where
  pub user_id : ℕ
  pub message_id : ℕ
  pub project_id : ℕ
  pub issue_id : ℕ

pub record CreateMessageRequest : Type 0 where
  pub user_id : ℕ
  pub content : Bytes
  pub mentioned_users : List ℕ
  pub project_id : ℕ
  pub issue_id : ℕ

pub record AssignIssueRequest : Type 0 where
  pub by_user_id : ℕ
  pub issue_id : ℕ
  pub user_id : ℕ

-- `slices.Sort` and `slices.Compact`.
unfoldable pub insert_sorted : ℕ → List ℕ → List ℕ
insert_sorted n [] = n ∷ []
insert_sorted n (m ∷ ms) = let rest = insert_sorted n ms in if leb n m then n ∷ m ∷ ms else m ∷ rest

unfoldable pub sort : List ℕ → List ℕ
unfolding insert_sorted
sort [] = []
sort (n ∷ ns) = insert_sorted n (sort ns)

abbrev pub push_new : ℕ → List ℕ → List ℕ
push_new n [] = n ∷ []
push_new n (m ∷ ms) = if n == m then m ∷ ms else n ∷ m ∷ ms

unfoldable pub compact : List ℕ → List ℕ
compact [] = []
compact (n ∷ ns) = push_new n (compact ns)

unfoldable pub mentions_of : ℕ → ℕ → List ℕ → List Mention
mentions_of message_id now users =
    map (λ n. record { message_id = message_id; mentioned_user_id = n; created_at = now }) users

-- The last entry of an issue in the map stays, and only teammates are in it.
unfoldable pub issue_to_assigned : List Teammate → List AssignedUser → ℕ → Option Teammate
issue_to_assigned teammates [] issue_id = none
issue_to_assigned teammates (a ∷ rows) issue_id =
    let rest = issue_to_assigned teammates rows issue_id in
    elim rest [
      | some t ↦ some t
      | none ↦
          if a.issue_id == issue_id
          then elim a.assigned_to_user_id [
            | none ↦ none
            | some n ↦ find? (λ (t : Teammate). t.id == n) teammates
          ]
          else none
    ]

module _ (svc : ProjectService) where
  unfoldable pub get_discussion : ℕ → ℕ → ℕ → P Discussion
  get_discussion project_id issue_id user_id = do
    project ← get_user_project svc project_id user_id
    teammates ← list_teammates svc user_id
    issue ← from_store (get_issue_by_id svc.env issue_id)
    messages ← from_store (list_issue_messages svc.env issue_id)
    pure (record {
      issue_first_seen = some issue.first_seen;
      project_id = project.id;
      issue_id = issue_id;
      teammates = teammates;
      messages = messages;
    })

  -- What both methods end with.
  unfoldable pub discussion_of : ℕ → ℕ → List Teammate → P Discussion
  discussion_of project_id issue_id teammates = do
    messages ← from_store (list_issue_messages svc.env issue_id)
    pure (record {
      issue_first_seen = none;
      project_id = project_id;
      issue_id = issue_id;
      teammates = teammates;
      messages = messages;
    })

  -- The two statements of the unit of work, both in the transaction.
  unfoldable pub delete_work : DeleteMessageRequest → W (Unit {0})
  unfolding remove_message remove_mentions in_transaction
  delete_work req = do
    in_transaction svc.env (λ db. (tt, db)) (λ _. remove_message req.message_id req.user_id)
    in_transaction svc.env (λ db. (tt, db)) (λ _. remove_mentions req.message_id)

  unfoldable pub delete_message : DeleteMessageRequest → P Discussion
  unfolding delete_work discussion_of
  delete_message req = do
    project ← get_user_project svc req.project_id req.user_id
    teammates ← list_teammates svc req.user_id
    from_store (start_unit svc.env (delete_work req))
    discussion_of project.id req.issue_id teammates

  -- The message's number is `LAST_INSERT_ID`.
  unfoldable pub new_message : CreateMessageRequest → ℕ → W ℕ
  unfolding insert_message in_transaction
  new_message req now =
      in_transaction svc.env (λ db. (db.next_id, record db { next_id = db.next_id + 1 }))
        (λ id. insert_message (record {
          id = id;
          issue_id = req.issue_id;
          user_id = req.user_id;
          content = req.content;
          created_at = now;
        }))

  -- `s.mentionStore` and not `uw.Mentions()`: the statement goes to the pool.
  unfoldable pub new_mentions : List ℕ → ℕ → ℕ → W (Unit {0})
  unfolding mentions_of insert_mentions through_pool
  new_mentions [] now message_id = pure tt
  new_mentions (n ∷ ns) now message_id =
      through_pool
        (exec svc.env λ db. (ok tt, insert_mentions (mentions_of message_id now (n ∷ ns)) db))

  unfoldable pub create_work : CreateMessageRequest → W (Unit {0})
  unfolding new_message new_mentions sort compact through_pool
  create_work req = do
    now ← through_pool (read_clock svc.env)
    message_id ← new_message req now
    new_mentions (compact (sort req.mentioned_users)) now message_id

  -- A content of which nothing is left is not stored.
  unfoldable pub store_message : CreateMessageRequest → Bytes → P (Unit {0})
  unfolding create_work
  store_message req [] = pure tt
  store_message req (c ∷ cs) =
      from_store (start_unit svc.env (create_work (record req { content = c ∷ cs })))

  unfoldable pub create_message : CreateMessageRequest → P Discussion
  unfolding store_message discussion_of
  create_message req = do
    project ← get_user_project svc req.project_id req.user_id
    teammates ← list_teammates svc req.user_id
    store_message req (svc.sanitize req.content)
    discussion_of project.id req.issue_id teammates

  unfoldable pub delete_assignment : ℕ → ℕ → P (Unit {0})
  delete_assignment issue_id user_id = do
    teammates ← list_teammates svc user_id
    validate_teammate svc teammates user_id
    from_store (delete_assignment_row svc.env issue_id)

  unfoldable pub assign_issue : AssignIssueRequest → P (Unit {0})
  assign_issue req = do
    teammates ← list_teammates svc req.by_user_id
    validate_teammate svc teammates req.user_id
    now ← from_store (read_clock svc.env)
    from_store (
        create_assignment svc.env (record {
          issue_id = req.issue_id;
          assigned_to_user_id = some req.user_id;
          assigned_to_team_id = none;
          assigned_by_user_id = req.by_user_id;
          assigned_at = now;
        }))

  unfoldable pub build_teammate_assigns : List Teammate → List Issue → P (ℕ → Option Teammate)
  unfolding issue_to_assigned
  build_teammate_assigns [] issues = pure (λ _. none)
  build_teammate_assigns (t ∷ ts) [] = pure (λ _. none)
  build_teammate_assigns (t ∷ ts) (i ∷ is) = do
    rows ← from_store (list_assignments svc.env (map (λ (x : Issue). x.id) (i ∷ is)))
    pure (issue_to_assigned (t ∷ ts) rows)
