-- ===== src/Olap/Requests.antt =====
-- Every call of the store of internal/ch/ch.go with the statements that it may send.
use warnly.Base.{ℕ, Option, none, some, List, [], ◌∷◌}
use warnly.Event.Body.{EventClickhouse}
use warnly.Query.Parse.{QueryToken}
use warnly.Project.Types.{
  ListIssueMetricsCriteria, EventDefCriteria, FieldsCriteria, EventCriteria,
  EventPaginationCriteria, ListTagsCriteria,
}
use warnly.Olap.Statement.{Statement, ListErrorsCriteria, FieldFilterCriteria}
use warnly.Olap.Issues.{
  issue_metrics_statement, count_fields_statement, calculate_fields_statement,
  events_per_day_statement, events_statement,
}
use warnly.Olap.Insert.{store_event_statement}
use warnly.Olap.Events.{issue_event_statement, list_events_statement, count_events_statement}
use warnly.Olap.Pages.{first_statement, last_statement, next_statement, prev_statement}
use warnly.Olap.Tags.{
  field_filters_statement, popular_tags_statement, tag_values_statement, filtered_groups_statement,
}
use warnly.Olap.System.{schemas_statement, errors_statement, slow_queries_statement}

pub data Request : Type 0 where
  issue_metrics events_by_hour : ListIssueMetricsCriteria → Request
  fields events_per_day issue_event : EventDefCriteria → Request
  field_counts : FieldsCriteria → Request
  store : EventClickhouse → Request
  events event_count : EventCriteria → Request
  pages : EventPaginationCriteria → Request
  field_filters : FieldFilterCriteria → Request
  popular_tags tag_values : ListTagsCriteria → Request
  filtered_groups : List QueryToken → ℕ → ℕ → List ℕ → Request
  schemas slow_queries : Request
  errors : ListErrorsCriteria → Request

abbrev pub if_some : Option Statement → List Statement
if_some none = []
if_some (some s) = s ∷ []

unfoldable pub statements_of : Request → List Statement
statements_of (issue_metrics c) = issue_metrics_statement c ∷ []
statements_of (events_by_hour c) = events_statement c ∷ []
statements_of (fields c) = count_fields_statement c ∷ []
statements_of (events_per_day c) = events_per_day_statement c ∷ []
statements_of (issue_event c) = issue_event_statement c ∷ []
statements_of (field_counts c) = calculate_fields_statement c ∷ []
statements_of (store ev) = store_event_statement ev ∷ []
statements_of (events c) = list_events_statement c ∷ []
statements_of (event_count c) = count_events_statement c ∷ []
statements_of (pages c) =
    first_statement c ∷ last_statement c ∷ next_statement c ∷ prev_statement c ∷ []
statements_of (field_filters c) = field_filters_statement c ∷ []
statements_of (popular_tags c) = popular_tags_statement c ∷ []
statements_of (tag_values c) = tag_values_statement c ∷ []
statements_of (filtered_groups tokens from to ids) =
    if_some (filtered_groups_statement tokens from to ids)
statements_of schemas = schemas_statement ∷ []
statements_of slow_queries = slow_queries_statement ∷ []
statements_of (errors c) = errors_statement c ∷ []
