-- ===== src/Project/Types.antt =====
-- What internal/svc/project/project.go is made of: its stores, its errors, and the interface
-- `AnalyticsStore` of internal/warnly/analytics.go.
use warnly.Base.{
  ℕ, ◌+◌, ◌-◌, Bool, true, false, Option, none, some, List, Bytes, Result, ok, err, Action, pure,
  fail, ◌>>=◌,
}
use warnly.Base.Int.{ℤ, pos, negsuc}
use warnly.Db.Tables.{Db, Env, DbError, M}
use warnly.Query.Parse.{QueryToken, QueryValue}
use warnly.Project.Duration.{DurationError, parse_duration}

pub record ListIssueMetricsCriteria : Type 0 where
  pub from : ℕ
  pub to : ℕ
  pub project_ids : List ℕ
  pub group_ids : List ℕ

pub record EventDefCriteria : Type 0 where
  pub from : ℕ
  pub to : ℕ
  pub event_id : Bytes
  pub group_id : ℕ
  pub project_id : ℕ

pub record FieldsCriteria : Type 0 where
  pub from : ℕ
  pub to : ℕ
  pub issue_id : ℕ
  pub project_id : ℕ

pub record EventCriteria : Type 0 where
  pub from : ℕ
  pub to : ℕ
  pub tags : List (Bytes × QueryValue)
  pub message : Bytes
  pub project_id : ℕ
  pub group_id : ℕ
  pub limit : ℕ
  pub offset : ℕ

pub record ListTagsCriteria : Type 0 where
  pub from : ℕ
  pub to : ℕ
  pub tag : Bytes
  pub project_ids : List ℕ
  pub limit : ℕ

pub record EventPaginationCriteria : Type 0 where
  pub created_at : ℕ
  pub from : ℕ
  pub to : ℕ
  pub event_id : Bytes
  pub project_id : ℕ
  pub group_id : ℕ

pub record EventPagination : Type 0 where
  pub next_event_id : Bytes
  pub prev_event_id : Bytes
  pub first_event_id : Bytes
  pub last_event_id : Bytes

pub record EventsPerHour : Type 0 where
  pub ts : ℕ
  pub project_id : ℕ
  pub count : ℕ

pub record EventPerDay : Type 0 where
  pub time : ℕ
  pub gid : ℕ
  pub count : ℕ

pub record TagCount : Type 0 where
  pub tag : Bytes
  pub count : ℕ

pub record TagValueCount : Type 0 where
  pub value : Bytes
  pub count : ℕ

-- Without `PercentsOfTotal`, a floating-point number.
pub record FieldValueNum : Type 0 where
  pub first_seen : ℕ
  pub last_seen : ℕ
  pub tag : Bytes
  pub value : Bytes
  pub count : ℕ

pub record IssueMetrics : Type 0 where
  pub first_seen : ℕ
  pub last_seen : ℕ
  pub gid : ℕ
  pub times_seen : ℕ
  pub user_count : ℕ

pub record IssueEvent : Type 0 where
  pub user_id : Bytes
  pub user_email : Bytes
  pub user_name : Bytes
  pub user_username : Bytes
  pub event_id : Bytes
  pub created_at : ℕ
  pub env_name : Bytes
  pub release_name : Bytes
  pub tags_key : List Bytes
  pub tags_value : List Bytes
  pub contexts_key : List Bytes
  pub contexts_value : List Bytes
  pub message : Bytes
  pub exception_frames_abs_path : List Bytes
  pub exception_frames_colno : List ℕ
  pub exception_frames_function : List Bytes
  pub exception_frames_lineno : List ℕ
  pub exception_frames_in_app : List ℕ

pub record EventEntry : Type 0 where
  pub created_at : ℕ
  pub event_id : Bytes
  pub title : Bytes
  pub message : Bytes

pub record IssueEntry : Type 0 where
  pub last_seen : ℕ
  pub first_seen : ℕ
  pub error_type : Bytes
  pub view : Bytes
  pub message : Bytes
  pub id : ℕ
  pub times_seen : ℕ
  pub user_count : ℕ
  pub project_id : ℕ
  pub messages_count : ℕ

-- What the analytics store answers to the n-th statement of the program.
pub record Analytics : Type 0 where
  pub calculate_events : ListIssueMetricsCriteria → ℕ → Result DbError (List EventsPerHour)
  pub list_issue_metrics : ListIssueMetricsCriteria → ℕ → Result DbError (List IssueMetrics)
  pub calculate_events_per_day : EventDefCriteria → ℕ → Result DbError (List EventPerDay)
  pub count_fields : EventDefCriteria → ℕ → Result DbError (List FieldValueNum)
  pub calculate_fields : FieldsCriteria → ℕ → Result DbError (List TagCount)
  pub get_issue_event : EventDefCriteria → ℕ → Result DbError IssueEvent
  pub count_events : EventCriteria → ℕ → Result DbError ℕ
  pub list_events : EventCriteria → ℕ → Result DbError (List EventEntry)
  pub list_popular_tags : ListTagsCriteria → ℕ → Result DbError (List TagCount)
  pub list_tag_values : ListTagsCriteria → ℕ → Result DbError (List TagValueCount)
  pub get_filtered_group_ids : List QueryToken → ℕ → ℕ → List ℕ → ℕ → Result DbError (List ℕ)
  pub get_event_pagination : EventPaginationCriteria → ℕ → Result DbError (Option EventPagination)

pub data ProjectError : Type 0 where
  store : DbError → ProjectError
  duration : DurationError → ProjectError
  team_not_found bad_time not_a_teammate no_metrics no_random_id : ProjectError

abbrev pub P : Type 0 → Type 0
P A = Action Db ProjectError A

abbrev pub lift_store : {A : Type 0} → Result DbError A × Db → Result ProjectError A × Db
lift_store (ok a, db) = (ok a, db)
lift_store (err e, db) = (err (store e), db)

-- A call of a store, its error returned.
unfoldable pub from_store : {A : Type 0} → M A → P A
from_store m db = lift_store (m db)

-- A question to the analytics store.
unfoldable pub ask : {A : Type 0} → (ℕ → Result DbError A) → P A
ask answer db = lift_store (answer db.statements, record db { statements = db.statements + 1 })

abbrev pub duration_result : {A : Type 0} → Result DurationError A → Result ProjectError A
duration_result (ok a) = ok a
duration_result (err e) = err (duration e)

unfoldable pub read_duration : Bytes → P ℤ
unfolding parse_duration
read_duration period db = (duration_result (parse_duration period), db)

-- `now.Add(-dur)`. Times count nanoseconds from the year 1, more than an int64 holds, so that 0
-- is not passed.
unfoldable pub before : ℤ → ℕ → ℕ
before (pos d) now = now - d
before (negsuc d) now = now + d + 1

abbrev pub required : {A : Type 0} → Option A → ProjectError → P A
required none e = fail e
required (some a) e = pure a

abbrev pub check_that : Bool → ProjectError → P (Unit {0})
check_that true e = pure tt
check_that false e = fail e

-- The stores and what else the service is given: `like` is MySQL's comparison with `%name%`,
-- `nano_id` is what go-nanoid gives at a statement, `sanitize` is bluemonday's policy,
-- `parse_time` is `time.Parse` for the layout of internal/warnly/project.go, `itoa` the verb `%d`,
-- and `sort_func` is `slices.SortFunc` on issues.
pub record ProjectService : Type 0 where
  pub env : Env
  pub analytics : Analytics
  pub like : Bytes → Bytes → Bool
  pub nano_id : ℕ → Option Bytes
  pub sanitize : Bytes → Bytes
  pub parse_time : Bytes → Option ℕ
  pub itoa : ℕ → Bytes
  pub sort_func : (IssueEntry → IssueEntry → ℤ) → List IssueEntry → List IssueEntry
  pub public_base_url : Bytes
  pub public_scheme : Bytes

module _ (svc : ProjectService) where
  -- `ParseTimeRange`.
  unfoldable pub parse_time_range : Bytes → Bytes → P (ℕ × ℕ)
  parse_time_range start end = do
    from ← required (svc.parse_time start) bad_time
    to ← required (svc.parse_time end) bad_time
    pure (from, to)
