-- ===== src/Db/Tables.antt =====
-- The tables, and what stands outside the program: the clocks and the failures of statements.
use warnly.Base.{ℕ, ◌+◌, Bool, Option, List, if◌then◌else◌, Bytes, ok, err, Action}
use warnly.Alert.{Alert, NotificationChannel, WebhookConfig, AlertNotification}
use warnly.Locks.Table.{Locks}

-- internal/warnly/issue.go, the columns that queries read.
pub record Issue : Type 0 where
  pub id : ℕ
  pub project_id : ℕ
  pub first_seen : ℕ
  pub last_seen : ℕ
  pub error_type : Bytes
  pub view : Bytes
  pub message : Bytes
  pub hash : Bytes
  pub uuid : Bytes
  pub priority : ℕ
  pub num_comments : ℕ

pub record Project : Type 0 where
  pub id : ℕ
  pub name : Bytes
  pub team_id : ℕ
  pub created_at : ℕ
  pub user_id : ℕ
  pub platform : ℕ
  pub key : Bytes

pub record Team : Type 0 where
  pub id : ℕ
  pub name : Bytes
  pub owner_id : ℕ
  pub created_at : ℕ

-- A row of `team_relation`.
pub record Membership : Type 0 where
  pub user_id : ℕ
  pub team_id : ℕ

-- The columns of `user` that `ListTeammates` and `ListIssueMessages` read.
pub record Teammate : Type 0 where
  pub id : ℕ
  pub name : Bytes
  pub surname : Bytes
  pub email : Bytes
  pub username : Bytes

pub record Message : Type 0 where
  pub id : ℕ
  pub issue_id : ℕ
  pub user_id : ℕ
  pub content : Bytes
  pub created_at : ℕ

pub record Mention : Type 0 where
  pub message_id : ℕ
  pub mentioned_user_id : ℕ
  pub created_at : ℕ

-- A row of `issue_assignment`, whose key is `issue_id`.
pub record Assignment : Type 0 where
  pub issue_id : ℕ
  pub assigned_to_user_id : Option ℕ
  pub assigned_to_team_id : Option ℕ
  pub assigned_by_user_id : ℕ
  pub assigned_at : ℕ

-- `alerts` and `channels` stand in the order `created_at DESC`, in which they are listed;
-- `statements` and `readings` count the statements and the readings of the program's clock.
pub record Db : Type 0 where
  pub alerts : List Alert
  pub channels : List NotificationChannel
  pub webhooks : List WebhookConfig
  pub notifications : List AlertNotification
  pub locks : Locks
  pub issues : List Issue
  pub projects : List Project
  pub teams : List Team
  pub memberships : List Membership
  pub users : List Teammate
  pub messages : List Message
  pub mentions : List Mention
  pub assignments : List Assignment
  pub next_id : ℕ
  pub statements : ℕ
  pub readings : ℕ

-- The environment: whether the n-th statement fails, what `NOW()` is at it, the n-th reading of
-- the program's clock, and whether MySQL counts an updated row as affected.
pub record Env : Type 0 where
  pub fails : ℕ → Bool
  pub db_now : ℕ → ℕ
  pub clock : ℕ → ℕ
  pub counts : Alert → Alert → Bool

pub data DbError : Type 0 where
  statement_failed no_rows not_found project_not_found bad_rows_affected duplicate : DbError
  -- A panic, which passes every caller.
  panicked : DbError

abbrev pub M : Type 0 → Type 0
M A = Action Db DbError A

-- One statement.
unfoldable pub exec : {A : Type 0} → Env → M A → M A
exec env run db =
    let db' = record db { statements = db.statements + 1 } in
    if env.fails db.statements then (err statement_failed, db') else run db'

-- One statement that reads `NOW()`.
unfoldable pub exec_now : {A : Type 0} → Env → (ℕ → M A) → M A
unfolding exec
exec_now env run db = exec env (run (env.db_now db.statements)) db

-- `now()`.
unfoldable pub read_clock : Env → M ℕ
read_clock env db = (ok (env.clock db.readings), record db { readings = db.readings + 1 })
