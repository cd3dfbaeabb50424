-- ===== src/Project/Tests.antt =====
-- The theorems on projects, issues and discussions at one team with two users.
use warnly.Base.{
  ℕ, ◌+◌, ◌≡◌, refl, true, false, none, some, List, [], ◌∷◌, ◌++◌, ◌==◌, text, ok, err, arith,
}
use mathlib.Core.List.{Permᴰ}
use warnly.Base.Int.{pos}
use warnly.Db.Tables.{Db, Env, Team, Project, Issue, Teammate, Message, Mention, statement_failed}
use warnly.Db.Statements.{joined_teams}
use warnly.Db.UnitOfWork.{start_unit}
use warnly.Project.Types.{IssueEntry, ProjectService, Analytics}
use warnly.Service.Alerts.{has_access}
use warnly.Project.Projects.{delete_project}
use warnly.Project.Threads.{
  DeleteMessageRequest, CreateMessageRequest, AssignIssueRequest, delete_message, create_work,
  assign_issue, sort, compact,
}
use warnly.Project.Entries.{limit_entries, sort_entries}
use warnly.Project.Atomic.{IsDeletedOrKept, delete_message_atomic, new_rows, create_work_orphans}
use warnly.Project.Rights.{
  IsShared, IsProjectDeletion, delete_project_access, IsAssigned, assign_issue_teammate,
}
use warnly.Project.Pages.{IsPage, limit_entries-IsPage}
use warnly.Project.Order.{IsListed, sort_entries-IsListed_Perm}
use warnly.Project.Insertion.{insertion_sort, insertion_sort-IsSortFunc}

abbrev env : Env
env = record { fails = λ n. false; db_now = λ n. 1000 + n; clock = λ n. 1000; counts = λ a b. true }

-- The third statement after the first fails: of a unit of work, the commit.
abbrev failing : Env
failing = record {
  fails = λ n. n == 3;
  db_now = λ n. 1000 + n;
  clock = λ n. 1000;
  counts = λ a b. true;
}

abbrev analytics : Analytics
analytics = record {
  calculate_events = λ c n. ok [];
  list_issue_metrics = λ c n. ok [];
  calculate_events_per_day = λ c n. ok [];
  count_fields = λ c n. ok [];
  calculate_fields = λ c n. ok [];
  get_issue_event = λ c n. err statement_failed;
  count_events = λ c n. ok 0;
  list_events = λ c n. ok [];
  list_popular_tags = λ c n. ok [];
  list_tag_values = λ c n. ok [];
  get_filtered_group_ids = λ tokens from to ids n. ok [];
  get_event_pagination = λ c n. ok none;
}

abbrev service_in : Env → ProjectService
service_in e = record {
  env = e;
  analytics = analytics;
  like = λ a b. true;
  nano_id = λ n. some (text "abc1234");
  sanitize = λ s. s;
  parse_time = λ s. none;
  itoa = λ n. text "1";
  sort_func = insertion_sort;
  public_base_url = text "warnly.dev";
  public_scheme = text "https";
}

abbrev team : Team
team = record { id = 3; name = text "own"; owner_id = 7; created_at = 1 }

abbrev project : Project
project = record {
  id = 2;
  name = text "shop";
  team_id = 3;
  created_at = 0;
  user_id = 7;
  platform = 1;
  key = text "k";
}

abbrev ann : Teammate
ann = record { id = 7; name = text "Ann"; surname = text "A"; email = []; username = text "ann" }

abbrev bob : Teammate
bob = record { id = 8; name = text "Bob"; surname = text "B"; email = []; username = text "bob" }

-- An issue of another project.
abbrev issue : Issue
issue = record {
  id = 4;
  project_id = 9;
  first_seen = 10;
  last_seen = 900;
  error_type = [];
  view = [];
  message = [];
  hash = text "h";
  uuid = text "u";
  priority = 3;
  num_comments = 0;
}

-- What Bob wrote about it, mentioning Ann.
abbrev message : Message
message = record { id = 5; issue_id = 4; user_id = 8; content = text "look"; created_at = 20 }

abbrev mention : Mention
mention = record { message_id = 5; mentioned_user_id = 7; created_at = 20 }

abbrev db : Db
db = record {
  alerts = [];
  channels = [];
  webhooks = [];
  notifications = [];
  locks = [];
  issues = issue ∷ [];
  projects = project ∷ [];
  teams = team ∷ [];
  memberships = record { user_id = 7; team_id = 3 } ∷ record { user_id = 8; team_id = 3 } ∷ [];
  users = ann ∷ bob ∷ [];
  messages = message ∷ [];
  mentions = mention ∷ [];
  assignments = [];
  next_id = 10;
  statements = 0;
  readings = 0;
}

abbrev deletion : DeleteMessageRequest
deletion = record { user_id = 7; message_id = 5; project_id = 2; issue_id = 4 }

abbrev creation : CreateMessageRequest
creation = record {
  user_id = 7;
  content = text "hi";
  mentioned_users = 8 ∷ 7 ∷ 8 ∷ [];
  project_id = 2;
  issue_id = 4;
}

abbrev assignment : AssignIssueRequest
assignment = record { by_user_id = 7; issue_id = 4; user_id = 8 }

abbrev entry : ℕ → ℕ → IssueEntry
entry id times = record {
  last_seen = 900;
  first_seen = 10;
  error_type = [];
  view = [];
  message = [];
  id = id;
  times_seen = times;
  user_count = 1;
  project_id = 2;
  messages_count = 0;
}

abbrev list : List IssueEntry
list = entry 1 5 ∷ entry 2 9 ∷ entry 3 7 ∷ []

delete_message_atomic_example :
    IsDeletedOrKept deletion db (delete_message (service_in failing) deletion db).1
delete_message_atomic_example = delete_message_atomic (service_in failing) deletion db

create_work_orphans_example :
    let r = start_unit failing (create_work (service_in failing) creation) db in
    (r.0 ≡ err statement_failed)
    × (r.1.messages ≡ message ∷ [])
    × (r.1.mentions ≡ mention ∷ [] ++ new_rows (service_in failing) creation db)
create_work_orphans_example =
    create_work_orphans (service_in failing) creation db 7 (8 ∷ [])
      (unfold sort in unfold compact in refl) refl refl refl refl

delete_project_access_example : IsProjectDeletion 2 7 db (delete_project (service_in env) 2 7 db).1
delete_project_access_example = delete_project_access (service_in env) 2 7 db

assign_issue_teammate_example :
    IsAssigned (service_in env) assignment db (assign_issue (service_in env) assignment db).1
assign_issue_teammate_example = assign_issue_teammate (service_in env) assignment db

shared : IsShared 2 7 db project
unfolding joined_teams has_access
shared = (refl, refl)

limit_entries-IsPage_example :
    (page : List IssueEntry) × (limit_entries (pos 1) (pos 1) list db ≡ (ok page, db))
    × IsPage 1 1 list page
limit_entries-IsPage_example = limit_entries-IsPage 1 1 list db (omega arith) (omega arith)

sort_entries-IsListed_Perm_example :
    IsListed (sort_entries (service_in env) list) × Permᴰ (sort_entries (service_in env) list) list
sort_entries-IsListed_Perm_example =
    sort_entries-IsListed_Perm (service_in env) insertion_sort-IsSortFunc list
