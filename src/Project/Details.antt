-- ===== src/Project/Details.antt =====
-- The methods of internal/svc/project/project.go on one issue: its fields, its events and its page.
use warnly.Base.{
  ℕ, ◌+◌, ◌*◌, ◌^◌, not, ◌&&◌, List, [], ◌∷◌, if◌then◌else◌, ltb, is_empty, pure, fail, ◌>>=◌,
}
use warnly.Base.Int.{pos}
use warnly.Db.Tables.{Issue, panicked, read_clock}
use warnly.Db.Board.{get_issue_by_id, count_messages}
use warnly.Query.Parse.{parse_query, convert_tokens_to_criteria}
use warnly.Project.Types.{
  ProjectService, store, required, IssueMetrics, TagCount, FieldValueNum, IssueEvent, EventCriteria,
  P, no_metrics, from_store, ask, before, read_duration, parse_time_range,
}
use warnly.Project.Stack.{get_stack_details}
use warnly.Project.Projects.{one_day, get_user_project, list_teammates}
use warnly.Project.Threads.{build_teammate_assigns}
use warnly.Project.Entries.{calculate_total_events, one_week}
use warnly.Project.Issues.{
  ListFieldsResult, ListEventsRequest, ListEventsResult, GetIssueRequest, IssueDetails, EventLinks,
  links_of,
}

abbrev pub second : ℕ
second = 10 ^ 9

abbrev pub minute : ℕ
minute = 60 * 10 ^ 9

module _ (svc : ProjectService) where
  -- `calculateFieldMetrics`, but for the percentages.
  unfoldable pub calculate_field_metrics : ℕ → ℕ → ℕ → ℕ → P (List TagCount × List FieldValueNum)
  calculate_field_metrics issue_id project_id from to = do
    counts ← ask (
        svc.analytics.calculate_fields
          (record { from = from; to = to; issue_id = issue_id; project_id = project_id }))
    values ← ask (
        svc.analytics.count_fields (record {
          from = from;
          to = to;
          event_id = [];
          group_id = issue_id;
          project_id = project_id;
        }))
    pure (counts, values)

  unfoldable pub list_fields : ℕ → ℕ → ℕ → P ListFieldsResult
  unfolding calculate_field_metrics
  list_fields project_id issue_id user_id = do
    project ← get_user_project svc project_id user_id
    issue ← from_store (get_issue_by_id svc.env issue_id)
    now ← from_store (read_clock svc.env)
    fields ← calculate_field_metrics issue_id project.id issue.first_seen now
    pure (record { project_name = project.name; tag_count = fields.0; field_value_num = fields.1 })

  -- The clock is read before the period.
  unfoldable pub events_range : ListEventsRequest → Issue → P (ℕ × ℕ)
  events_range req issue = from_store (read_clock svc.env) >>= λ now.
      if not (is_empty req.period)
      then (read_duration req.period >>= λ dur. pure (before dur now, now))
      else if not (is_empty req.start) && not (is_empty req.end)
      then parse_time_range svc req.start req.end
      else pure (before (pos second) issue.first_seen, now)

  unfoldable pub events_criteria : ListEventsRequest → ℕ → ℕ → ℕ → EventCriteria
  events_criteria req project_id from to = record {
    from = from;
    to = to;
    tags = (convert_tokens_to_criteria (parse_query req.query)).1;
    message = (convert_tokens_to_criteria (parse_query req.query)).0;
    project_id = project_id;
    group_id = req.issue_id;
    limit = 50;
    offset = req.offset;
  }

  unfoldable pub list_events : ListEventsRequest → P ListEventsResult
  unfolding events_range events_criteria
  list_events req = do
    project ← get_user_project svc req.project_id req.user_id
    issue ← from_store (get_issue_by_id svc.env req.issue_id)
    range ← events_range req issue
    total ← ask (svc.analytics.count_events (events_criteria req project.id range.0 range.1))
    events ← ask (svc.analytics.list_events (events_criteria req project.id range.0 range.1))
    tags ← ask (
        svc.analytics.calculate_fields (record {
          from = range.0;
          to = range.1;
          issue_id = req.issue_id;
          project_id = project.id;
        }))
    pure (record {
      total_events = total;
      events = events;
      project_id = project.id;
      popular_tags = tags;
    })

  unfoldable pub first_metric : List IssueMetrics → P IssueMetrics
  first_metric [] = fail no_metrics
  first_metric (m ∷ ms) = pure m

  -- `getEventPaginationIDs`.
  unfoldable pub event_links : ℕ → ℕ → IssueEvent → ℕ → P EventLinks
  event_links project_id group_id event to = do
    found ← ask (
        svc.analytics.get_event_pagination (record {
          created_at = event.created_at;
          from = before (pos (360 * one_day)) to;
          to = to;
          event_id = event.event_id;
          project_id = project_id;
          group_id = group_id;
        }))
    pure (links_of found event.event_id)

  -- The period is read, and not used.
  unfoldable pub get_issue : GetIssueRequest → P IssueDetails
  unfolding calculate_field_metrics first_metric event_links get_stack_details
  get_issue req = do
    project ← get_user_project svc req.project_id req.user_id
    issue ← from_store (get_issue_by_id svc.env req.issue_id)
    dur ← read_duration req.period
    to ← from_store (read_clock svc.env)
    metrics ← ask (
        svc.analytics.list_issue_metrics (record {
          from = before (pos (10 * minute)) issue.first_seen;
          to = to;
          project_ids = project.id ∷ [];
          group_ids = issue.id ∷ [];
        }))
    metric ← first_metric metrics
    days ← ask (
        svc.analytics.calculate_events_per_day (record {
          from = before (pos (30 * one_day)) to;
          to = to;
          event_id = [];
          group_id = req.issue_id;
          project_id = issue.project_id;
        }))
    fields ← calculate_field_metrics req.issue_id project.id issue.first_seen to
    event ← ask (
        svc.analytics.get_issue_event (record {
          from = before (pos minute) metric.last_seen;
          to = metric.last_seen + minute;
          event_id = req.event_id;
          group_id = req.issue_id;
          project_id = project.id;
        }))
    links ← event_links project.id issue.id event to
    messages_count ← from_store (count_messages svc.env req.issue_id)
    teammates ← list_teammates svc req.user_id
    assignments ← build_teammate_assigns svc teammates (issue ∷ [])
    stack_details ← required (get_stack_details event) (store panicked)
    pure (record {
      issue = issue;
      project = project;
      metric = metric;
      is_new = ltb (before (pos one_week) to) issue.first_seen;
      total_30_days = (calculate_total_events days).0;
      total_24_hours = (calculate_total_events days).1;
      tag_count = fields.0;
      tag_value_num = fields.1;
      last_event = event;
      stack_details = stack_details;
      messages_count = messages_count;
      assignments = assignments;
      teammates = teammates;
      links = links;
    })
