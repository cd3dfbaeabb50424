-- ===== src/Olap/Store.antt =====
-- The store of internal/ch/ch.go as the interface that the project service uses.
use warnly.Base.{ℕ, some, ok, ◌>>?◌}
use warnly.Project.Types.{
  Analytics, IssueMetrics, FieldValueNum, TagCount, TagValueCount, EventPerDay, EventsPerHour,
  IssueEvent, EventEntry,
}
use warnly.Olap.Statement.{Statement, Answer, RowAnswer}
use warnly.Olap.Issues.{
  list_issue_metrics, count_fields, calculate_fields, calculate_events_per_day, calculate_events,
}
use warnly.Olap.Events.{get_issue_event, list_events, count_events}
use warnly.Olap.Pages.{get_event_pagination}
use warnly.Olap.Tags.{list_popular_tags, list_tag_values, get_filtered_group_ids}

-- A connection to ClickHouse: what the driver answers to a statement, for what its rows are
-- scanned into, at a moment.
pub record Connection : Type 0 where
  pub metrics : ℕ → Statement → Answer IssueMetrics
  pub field_values : ℕ → Statement → Answer FieldValueNum
  pub tag_counts : ℕ → Statement → Answer TagCount
  pub value_counts : ℕ → Statement → Answer TagValueCount
  pub days : ℕ → Statement → Answer EventPerDay
  pub hours : ℕ → Statement → Answer EventsPerHour
  pub event : ℕ → Statement → Answer IssueEvent
  pub entries : ℕ → Statement → Answer EventEntry
  pub number : ℕ → Statement → Answer ℕ
  pub row : ℕ → Statement → RowAnswer

-- `ClickhouseStore`.
unfoldable pub clickhouse_store : Connection → Analytics
unfolding list_issue_metrics count_fields calculate_fields calculate_events_per_day calculate_events
    get_issue_event list_events count_events get_event_pagination list_popular_tags list_tag_values
    get_filtered_group_ids
clickhouse_store conn = record {
  calculate_events = λ c n. calculate_events (conn.hours n) c;
  list_issue_metrics = λ c n. list_issue_metrics (conn.metrics n) c;
  calculate_events_per_day = λ c n. calculate_events_per_day (conn.days n) c;
  count_fields = λ c n. count_fields (conn.field_values n) c;
  calculate_fields = λ c n. calculate_fields (conn.tag_counts n) c;
  get_issue_event = λ c n. get_issue_event (conn.event n) c;
  count_events = λ c n. count_events (conn.number n) c;
  list_events = λ c n. list_events (conn.entries n) c;
  list_popular_tags = λ c n. list_popular_tags (conn.tag_counts n) c;
  list_tag_values = λ c n. list_tag_values (conn.value_counts n) c;
  get_filtered_group_ids =
      λ tokens from to ids n. get_filtered_group_ids (conn.number n) tokens from to ids;
  get_event_pagination = λ c n. get_event_pagination (conn.row n) c >>? λ p. ok (some p);
}
