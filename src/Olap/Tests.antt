-- ===== src/Olap/Tests.antt =====
-- The theorems on the statements of the analytics store at some of its calls.
use warnly.Base.{◌≡◌, refl, true, false, none, some, [], ◌∷◌, ◌++◌, Bytes, text, length, All}
use warnly.Project.Types.{
  ListIssueMetricsCriteria, EventDefCriteria, FieldsCriteria, EventCriteria, ListTagsCriteria,
}
use warnly.Query.Parse.{get_key}
use warnly.Event.Body.{EventClickhouse}
use warnly.Olap.Statement.{
  Arg, num, at, Statement, refused, rows, no_row, FieldFilterCriteria, ListErrorsCriteria,
}
use warnly.Olap.Issues.{
  issue_metrics_statement, count_fields_statement, calculate_fields_statement,
  events_per_day_statement, events_statement,
}
use warnly.Olap.Events.{list_events_statement}
use warnly.Olap.Tags.{
  popular_tags_statement, tag_values_statement, filtered_groups_statement, token_conditions,
  token_args, more_marks, list_field_filters,
}
use warnly.Olap.System.{list_schemas, list_errors}
use warnly.Olap.Store.{Connection, clickhouse_store}
use warnly.Olap.Marks.{IsBound}
use warnly.Olap.Insert.{store_event_statement}
use warnly.Olap.Requests.{Request, events, filtered_groups, statements_of}
use warnly.Olap.Bound.{statements_of-IsBound}
use warnly.Olap.Values.{blank, texts_of, texts_of-blank}
use warnly.Olap.Columns.{columns, zip, tagged, store_event_statement-columns}
use warnly.Olap.Rows.{IsAllOrError, clickhouse_store-IsAllOrError}

abbrev some_events : Request
some_events = events (record {
  from = 10;
  to = 20;
  tags = (text "os", record { value = text "linux"; is_not = true }) ∷ [];
  message = text "boom?";
  project_id = 2;
  group_id = 7;
  limit = 50;
  offset = 0;
})

statements_of-IsBound_example : All IsBound (statements_of some_events)
statements_of-IsBound_example = statements_of-IsBound some_events

abbrev some_groups : Request
some_groups =
    filtered_groups
      (record {
        key = text "env";
        operator = text "is not";
        value = text "'); DROP TABLE event";
        is_raw_text = false;
      }
        ∷ [])
      10 20 (1 ∷ 2 ∷ [])

abbrev stored : EventClickhouse
stored = record {
  created_at = 1;
  stored_sdk_version = [];
  stored_user = [];
  user_email = [];
  user_name = [];
  user_username = [];
  primary_hash = [];
  env = text "live";
  stored_event_id = text "e1";
  stored_message = text "boom";
  ipv6 = [];
  stored_release = [];
  title = [];
  ipv4 = [];
  exception_frames_in_app = [];
  contexts_key = [];
  exception_frames_col_no = [];
  exception_frames_abs_path = [];
  exception_frames_line_no = [];
  exception_stacks_type = [];
  exception_stacks_value = [];
  tags_key = text "os" ∷ [];
  exception_frames_function = [];
  tags_value = text "linux" ∷ [];
  exception_frames_filename = [];
  contexts_value = [];
  group_id = 7;
  project_id = 2;
  stored_level = 1;
  event_type = 1;
  sdk_id = 1;
  stored_platform = 1;
  retention_days = 90;
  deleted = 0;
}

texts_of-blank_example : texts_of (blank stored some_groups) ≡ texts_of some_groups
texts_of-blank_example = texts_of-blank stored some_groups

store_event_statement-columns_example :
    (length (columns (store_event_statement stored).sql)
      ≡ length (store_event_statement stored).args)
    × All
        (λ (entry : Bytes × Arg).
          get_key entry.0
            (zip (columns (store_event_statement stored).sql) (store_event_statement stored).args)
          ≡ some entry.1)
        (tagged stored)
store_event_statement-columns_example = store_event_statement-columns stored

abbrev conn : Connection
conn = record {
  metrics = λ _ _. refused;
  field_values = λ _ _. rows (none ∷ []) true;
  tag_counts = λ _ _. rows (some (record { tag = text "os"; count = 4 }) ∷ []) true;
  value_counts = λ _ _. rows [] false;
  days = λ _ _. rows [] true;
  hours = λ _ _. refused;
  event = λ _ _. refused;
  entries = λ _ _. refused;
  number = λ _ _. rows (some 4 ∷ some 9 ∷ []) true;
  row = λ _ _. no_row;
}

abbrev metrics : ListIssueMetricsCriteria
metrics = record { from = 10; to = 20; project_ids = 2 ∷ []; group_ids = 7 ∷ [] }

abbrev one_event : EventDefCriteria
one_event = record { from = 10; to = 20; event_id = text "e1"; group_id = 7; project_id = 2 }

abbrev fields : FieldsCriteria
fields = record { from = 10; to = 20; issue_id = 7; project_id = 2 }

abbrev criteria : EventCriteria
criteria = record {
  from = 10;
  to = 20;
  tags = [];
  message = [];
  project_id = 2;
  group_id = 7;
  limit = 50;
  offset = 0;
}

abbrev tags : ListTagsCriteria
tags = record { from = 10; to = 20; tag = text "os"; project_ids = 2 ∷ []; limit = 5 }

abbrev filter_criteria : FieldFilterCriteria
filter_criteria = record { from = 10; to = 20; project_ids = 2 ∷ [] }

abbrev since : ListErrorsCriteria
since = record { last_error_time = 10 }

abbrev groups : Statement
groups = record {
  sql =
      text "SELECT DISTINCT gid FROM event WHERE deleted = 0 AND pid IN (?"
      ++ text ") AND created_at >= toDateTime(?, 'UTC') AND created_at <= toDateTime(?, 'UTC')";
  args = num 2 ∷ at 10 ∷ at 20 ∷ [];
}

clickhouse_store-IsAllOrError_example :
    IsAllOrError
      (conn.metrics 0 (issue_metrics_statement metrics))
      ((clickhouse_store conn).list_issue_metrics metrics 0)
    × IsAllOrError
        (conn.field_values 0 (count_fields_statement one_event))
        ((clickhouse_store conn).count_fields one_event 0)
    × IsAllOrError
        (conn.tag_counts 0 (calculate_fields_statement fields))
        ((clickhouse_store conn).calculate_fields fields 0)
    × IsAllOrError
        (conn.days 0 (events_per_day_statement one_event))
        ((clickhouse_store conn).calculate_events_per_day one_event 0)
    × IsAllOrError
        (conn.hours 0 (events_statement metrics))
        ((clickhouse_store conn).calculate_events metrics 0)
    × IsAllOrError
        (conn.entries 0 (list_events_statement criteria))
        ((clickhouse_store conn).list_events criteria 0)
    × IsAllOrError
        (conn.tag_counts 0 (popular_tags_statement tags))
        ((clickhouse_store conn).list_popular_tags tags 0)
    × IsAllOrError
        (conn.value_counts 0 (tag_values_statement tags))
        ((clickhouse_store conn).list_tag_values tags 0)
    × IsAllOrError
        (conn.number 0 groups)
        ((clickhouse_store conn).get_filtered_group_ids [] 10 20 (2 ∷ []) 0)
    × IsAllOrError (rows [] true) (list_field_filters (λ _. rows [] true) filter_criteria)
    × IsAllOrError refused (list_schemas (λ _. refused))
    × IsAllOrError refused (list_errors (λ _. refused) since)
unfolding filtered_groups_statement token_conditions token_args more_marks
clickhouse_store-IsAllOrError_example =
    clickhouse_store-IsAllOrError conn 0 metrics one_event fields criteria tags [] 10 20 2 [] groups
      (λ _. rows [] true) filter_criteria (λ _. refused) (λ _. refused) since refl
