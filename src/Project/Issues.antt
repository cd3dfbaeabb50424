-- ===== src/Project/Issues.antt =====
-- The methods of internal/svc/project/project.go that show issues and their events.
use warnly.Base.{
  ℕ, zero, ◌*◌, ◌^◌, Bool, not, ◌&&◌, Option, none, some, List, [], ◌∷◌, if◌then◌else◌, leb, Bytes,
  text, bytes_eq, is_empty, get_last?, length, pure, ◌>>=◌,
}
use warnly.Base.Int.{ℤ, pos}
use warnly.Db.Tables.{Issue, Project, Teammate, read_clock}
use warnly.Db.Statements.{list_teams}
use warnly.Db.Board.{list_projects_like, list_group_issues}
use warnly.Query.Parse.{parse_query}
use warnly.Project.Types.{
  ProjectService, IssueEntry, IssueMetrics, EventsPerHour, TagCount, FieldValueNum, IssueEvent,
  EventEntry, EventPagination, P, from_store, ask, before, read_duration, parse_time_range,
}
use warnly.Project.Projects.{
  extract_project_ids, or_default, get_user_project, list_teammates, list_popular_tags, some_teams,
}
use warnly.Project.Threads.{build_teammate_assigns}
use warnly.Project.Stack.{StackDetail}
use warnly.Project.Entries.{
  build_issue_list, list_issue_entries, populate_messages_count, filter_recent_issues, paginate,
  limit_entries,
}

pub record ListIssuesRequest : Type 0 where
  pub user_id : ℕ
  pub period : Bytes
  pub start : Bytes
  pub end : Bytes
  pub query : Bytes
  pub project_name : Bytes
  pub offset : ℤ
  pub limit : ℤ

pub record ListIssuesResult : Type 0 where
  pub issues : List IssueEntry
  pub last_project : Option Project
  pub projects : List Project
  pub popular_tags : List TagCount
  pub total_issues : ℕ

pub record ListFieldsResult : Type 0 where
  pub project_name : Bytes
  pub tag_count : List TagCount
  pub field_value_num : List FieldValueNum

pub record ListEventsRequest : Type 0 where
  pub user_id : ℕ
  pub period : Bytes
  pub start : Bytes
  pub end : Bytes
  pub query : Bytes
  pub project_id : ℕ
  pub issue_id : ℕ
  pub offset : ℕ

pub record ListEventsResult : Type 0 where
  pub total_events : ℕ
  pub events : List EventEntry
  pub project_id : ℕ
  pub popular_tags : List TagCount

pub data IssuesType : Type 0 where
  all_issues new_issues : IssuesType

pub record ProjectDetailsRequest : Type 0 where
  pub issues : Bytes
  pub period : Bytes
  pub start : Bytes
  pub end : Bytes
  pub project_id : ℕ
  pub page : ℤ

pub record ProjectDetails : Type 0 where
  pub project : Project
  pub events : List EventsPerHour
  pub all_length : ℕ
  pub new_length : ℕ
  pub result_issue_list : List IssueEntry
  pub teammates : List Teammate
  pub assignments : ℕ → Option Teammate
  pub period : Bytes
  pub page : ℤ
  pub issues : IssuesType

pub record GetIssueRequest : Type 0 where
  pub user_id : ℕ
  pub period : Bytes
  pub event_id : Bytes
  pub project_id : ℕ
  pub issue_id : ℕ

-- The ids of the next, the previous, the first and the last event.
pub record EventLinks : Type 0 where
  pub next_id : Option Bytes
  pub prev_id : Option Bytes
  pub first_id : Option Bytes
  pub last_id : Option Bytes

pub record IssueDetails : Type 0 where
  pub issue : Issue
  pub project : Project
  pub metric : IssueMetrics
  pub is_new : Bool
  pub total_30_days : ℕ
  pub total_24_hours : ℕ
  pub tag_count : List TagCount
  pub tag_value_num : List FieldValueNum
  pub last_event : IssueEvent
  pub stack_details : List StackDetail
  pub messages_count : ℕ
  pub assignments : ℕ → Option Teammate
  pub teammates : List Teammate
  pub links : EventLinks

-- `slices.SortFunc` by id.
unfoldable pub insert_project_by_id : Project → List Project → List Project
insert_project_by_id p [] = p ∷ []
insert_project_by_id p (q ∷ qs) =
    let rest = insert_project_by_id p qs in if leb p.id q.id then p ∷ q ∷ qs else q ∷ rest

unfoldable pub sort_projects : List Project → List Project
unfolding insert_project_by_id
sort_projects [] = []
sort_projects (p ∷ ps) = insert_project_by_id p (sort_projects ps)

-- A link is left out where it leads nowhere, or to the event itself.
unfoldable pub link : Bytes → Bytes → Option Bytes
link id event_id = if not (is_empty id) && not (bytes_eq id event_id) then some id else none

unfoldable pub links_of : Option EventPagination → Bytes → EventLinks
unfolding link
links_of none event_id = record { next_id = none; prev_id = none; first_id = none; last_id = none }
links_of (some p) event_id = record {
  next_id = link p.next_event_id event_id;
  prev_id = link p.prev_event_id event_id;
  first_id = link p.first_event_id event_id;
  last_id = link p.last_event_id event_id;
}

-- `IsAllowedIssueType` and the type taken where it is not.
unfoldable pub issues_type : Bytes → IssuesType
issues_type name = if bytes_eq name (text "new") then new_issues else all_issues

abbrev pub chosen : {A : Type 0} → IssuesType → A → A → A
chosen all_issues a b = a
chosen new_issues a b = b

-- No duration, 0, is two weeks.
abbrev pub or_two_weeks : ℤ → ℤ
or_two_weeks (pos zero) = pos (14 * 24 * 3600 * 10 ^ 9)
or_two_weeks d = d

abbrev pub page_size : ℕ
page_size = 5

module _ (svc : ProjectService) where
  -- `parseTimeRange`.
  unfoldable pub issues_range : Bytes → Bytes → Bytes → P (ℕ × ℕ)
  issues_range period start end =
      if not (is_empty start) && not (is_empty end)
      then parse_time_range svc start end
      else (read_duration period >>= λ dur.
          from_store (read_clock svc.env) >>= λ now. pure (before (or_two_weeks dur) now, now))

  -- No query asks for no groups.
  unfoldable pub filtered_groups : Bytes → ℕ → ℕ → List ℕ → P (Option (List ℕ))
  filtered_groups [] from to project_ids = pure none
  filtered_groups (c ∷ query) from to project_ids = do
    groups ←
        ask (svc.analytics.get_filtered_group_ids (parse_query (c ∷ query)) from to project_ids)
    pure (some groups)

  -- The page of the issues that have metrics, and how many these are.
  unfoldable pub page_of_issues :
      ListIssuesRequest → List ℕ → List Issue → ℕ → ℕ → P (List IssueEntry × ℕ)
  page_of_issues req project_ids [] from to = pure ([], 0)
  page_of_issues req project_ids (i ∷ is) from to = do
    built ← build_issue_list svc project_ids (i ∷ is) from to
    list ← populate_messages_count svc built
    page ← limit_entries req.offset req.limit list
    pure (page, length list)

  -- A query that no group matches has no issues.
  unfoldable pub matching_issues :
      ListIssuesRequest → Option (List ℕ) → List ℕ → ℕ → ℕ → P (List IssueEntry × ℕ)
  unfolding page_of_issues
  matching_issues req (some []) project_ids from to = pure ([], 0)
  matching_issues req (some (g ∷ gs)) project_ids from to = do
    issues ← from_store (list_group_issues svc.env project_ids (g ∷ gs) from to)
    page_of_issues req project_ids issues from to
  matching_issues req none project_ids from to = do
    issues ← from_store (list_group_issues svc.env project_ids [] from to)
    page_of_issues req project_ids issues from to

  unfoldable pub issues_of_projects : ListIssuesRequest → ℕ → ℕ → List Project → P ListIssuesResult
  unfolding sort_projects filtered_groups matching_issues extract_project_ids
  issues_of_projects req from to [] = pure (record {
    issues = [];
    last_project = none;
    projects = [];
    popular_tags = [];
    total_issues = 0;
  })
  issues_of_projects req from to (p ∷ ps) = do
    let sorted = sort_projects (p ∷ ps)
    let project_ids = extract_project_ids sorted req.project_name
    tags ← list_popular_tags svc req.user_id req.project_name req.period 1000
    groups ← filtered_groups req.query from to project_ids
    page ← matching_issues req groups project_ids from to
    pure (record {
      issues = page.0;
      last_project = get_last? (p ∷ ps);
      projects = sorted;
      popular_tags = tags;
      total_issues = page.1;
    })

  unfoldable pub list_user_issues : ListIssuesRequest → P ListIssuesResult
  unfolding issues_range issues_of_projects
  list_user_issues req = do
    range ← issues_range req.period req.start req.end
    teams ← from_store (list_teams svc.env req.user_id)
    team_ids ← some_teams svc teams
    projects ← from_store (list_projects_like svc.env svc.like team_ids [])
    issues_of_projects req range.0 range.1 projects

  -- `getTimeRange`.
  unfoldable pub details_range : Bytes → Bytes → Bytes → P (ℕ × ℕ)
  details_range period start end =
      if not (is_empty period)
      then (read_duration period >>= λ dur.
          from_store (read_clock svc.env) >>= λ now. pure (before dur now, now))
      else parse_time_range svc start end

  unfoldable pub details_of :
      ProjectDetailsRequest → ℕ → Project → ℕ → ℕ → List Issue → P ProjectDetails
  unfolding issues_type or_default
  details_of req user_id project from to [] = pure (record {
    project = project;
    events = [];
    all_length = 0;
    new_length = 0;
    result_issue_list = [];
    teammates = [];
    assignments = λ _. none;
    period = or_default req.period;
    page = req.page;
    issues = issues_type req.issues;
  })
  details_of req user_id project from to (i ∷ is) = do
    events ← ask (
        svc.analytics.calculate_events
          (record { from = from; to = to; project_ids = project.id ∷ []; group_ids = [] }))
    listed ← list_issue_entries svc project.id (i ∷ is) from to
    list ← populate_messages_count svc listed
    now ← from_store (read_clock svc.env)
    all_page ← paginate list req.page page_size
    new_page ← paginate (filter_recent_issues list now) req.page page_size
    teammates ← list_teammates svc user_id
    assignments ← build_teammate_assigns svc teammates (i ∷ is)
    pure (record {
      project = project;
      events = events;
      all_length = length list;
      new_length = length (filter_recent_issues list now);
      result_issue_list = chosen (issues_type req.issues) all_page new_page;
      teammates = teammates;
      assignments = assignments;
      period = or_default req.period;
      page = req.page;
      issues = issues_type req.issues;
    })

  unfoldable pub get_project_details : ProjectDetailsRequest → ℕ → P ProjectDetails
  unfolding details_range details_of
  get_project_details req user_id = do
    project ← get_user_project svc req.project_id user_id
    range ← details_range req.period req.start req.end
    issues ← from_store (list_group_issues svc.env (project.id ∷ []) [] range.0 range.1)
    details_of req user_id project range.0 range.1 issues
