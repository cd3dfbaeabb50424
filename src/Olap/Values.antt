-- ===== src/Olap/Values.antt =====
-- No value gets into the text of a statement of internal/ch/ch.go.
use warnly.Base.{
  ℕ, ◌≡◌, refl, ap, Bool-cases, inl, inr, List, [], ◌∷◌, ◌++◌, map, if◌then◌else◌, Bytes, text,
  bytes_eq,
}
use warnly.Event.Body.{EventClickhouse}
use warnly.Query.Parse.{QueryToken, QueryValue}
use warnly.Project.Types.{
  ListIssueMetricsCriteria, EventDefCriteria, EventCriteria, ListTagsCriteria,
}
use warnly.Olap.Statement.{Statement, FieldFilterCriteria, placeholders}
use warnly.Olap.Issues.{
  issue_metrics_statement, count_fields_statement, calculate_fields_statement,
  events_per_day_statement, events_statement,
}
use warnly.Olap.Insert.{store_event_statement}
use warnly.Olap.Events.{
  issue_event_statement, list_events_statement, count_events_statement, tag_conditions,
  message_condition,
}
use warnly.Olap.Pages.{first_statement, last_statement, next_statement, prev_statement}
use warnly.Olap.Tags.{
  field_filters_statement, popular_tags_statement, tag_values_statement, filtered_groups_statement,
  token_conditions, more_marks,
}
use warnly.Olap.System.{schemas_statement, errors_statement, slow_queries_statement}
use warnly.Olap.Requests.{
  Request, issue_metrics, events_by_hour, fields, events_per_day, issue_event, field_counts, store,
  events, event_count, pages, field_filters, popular_tags, tag_values, filtered_groups, schemas,
  slow_queries, errors, statements_of,
}

-- A request with its values taken out. What is left: how many ids and terms there are, whether a
-- text is given, and which terms are negated or raw.
abbrev pub blank_text : Bytes → Bytes
blank_text [] = []
blank_text (c ∷ cs) = text "-"

abbrev pub blank_ids : List ℕ → List ℕ
blank_ids ids = map (λ _. 0) ids

abbrev pub blank_tag : Bytes × QueryValue → Bytes × QueryValue
blank_tag (key, value) = ([], record { value = []; is_not = value.is_not })

abbrev pub blank_token : QueryToken → QueryToken
blank_token t = record {
  key = [];
  operator = if bytes_eq t.operator (text "is not") then text "is not" else [];
  value = [];
  is_raw_text = t.is_raw_text;
}

abbrev pub blank_metrics : ListIssueMetricsCriteria → ListIssueMetricsCriteria
blank_metrics c = record {
  from = 0;
  to = 0;
  project_ids = blank_ids c.project_ids;
  group_ids = blank_ids c.group_ids;
}

abbrev pub blank_event_def : EventDefCriteria → EventDefCriteria
blank_event_def c = record {
  from = 0;
  to = 0;
  event_id = blank_text c.event_id;
  group_id = 0;
  project_id = 0;
}

abbrev pub blank_events : EventCriteria → EventCriteria
blank_events c = record {
  from = 0;
  to = 0;
  tags = map blank_tag c.tags;
  message = blank_text c.message;
  project_id = 0;
  group_id = 0;
  limit = 0;
  offset = 0;
}

abbrev pub blank_tags : ListTagsCriteria → ListTagsCriteria
blank_tags c = record {
  from = 0;
  to = 0;
  tag = [];
  project_ids = blank_ids c.project_ids;
  limit = 0;
}

abbrev pub blank_filters : FieldFilterCriteria → FieldFilterCriteria
blank_filters c = record { from = 0; to = 0; project_ids = blank_ids c.project_ids }

-- The event that an insertion is blanked to is any other one.
abbrev pub blank : EventClickhouse → Request → Request
blank any_event (issue_metrics c) = issue_metrics (blank_metrics c)
blank any_event (events_by_hour c) = events_by_hour (blank_metrics c)
blank any_event (fields c) = fields (blank_event_def c)
blank any_event (events_per_day c) = events_per_day (blank_event_def c)
blank any_event (issue_event c) = issue_event (blank_event_def c)
blank any_event (field_counts c) =
    field_counts (record { from = 0; to = 0; issue_id = 0; project_id = 0 })
blank any_event (store ev) = store any_event
blank any_event (events c) = events (blank_events c)
blank any_event (event_count c) = event_count (blank_events c)
blank any_event (pages c) =
    pages (record { created_at = 0; from = 0; to = 0; event_id = []; project_id = 0; group_id = 0 })
blank any_event (field_filters c) = field_filters (blank_filters c)
blank any_event (popular_tags c) = popular_tags (blank_tags c)
blank any_event (tag_values c) = tag_values (blank_tags c)
blank any_event (filtered_groups tokens from to ids) =
    filtered_groups (map blank_token tokens) 0 0 (blank_ids ids)
blank any_event schemas = schemas
blank any_event slow_queries = slow_queries
blank any_event (errors c) = errors (record { last_error_time = 0 })

placeholders-blank : (ids : List ℕ) → placeholders (blank_ids ids) ≡ placeholders ids
unfolding placeholders
placeholders-blank [] = refl
placeholders-blank (i ∷ []) = refl
placeholders-blank (i ∷ j ∷ js) =
    ap (λ rest. text "?" ++ (text "," ++ rest)) (placeholders-blank (j ∷ js))

message_condition-blank : (m : Bytes) → message_condition (blank_text m) ≡ message_condition m
message_condition-blank [] = refl
message_condition-blank (c ∷ cs) = refl

tag_conditions-blank :
    (tags : List (Bytes × QueryValue)) → tag_conditions (map blank_tag tags) ≡ tag_conditions tags
unfolding tag_conditions
tag_conditions-blank [] = refl
tag_conditions-blank ((key, value) ∷ tags) = rw (tag_conditions-blank tags) refl

token_conditions-blank :
    (tokens : List QueryToken) → token_conditions (map blank_token tokens) ≡ token_conditions tokens
unfolding token_conditions
token_conditions-blank [] = refl
token_conditions-blank (t ∷ ts) = elim (Bool-cases (bytes_eq t.operator (text "is not"))) [
  | inl negated ↦ rw (negated, token_conditions-blank ts) refl
  | inr plain ↦ rw (plain, token_conditions-blank ts) refl
]

more_marks-blank : (ids : List ℕ) → more_marks (blank_ids ids) ≡ more_marks ids
unfolding more_marks
more_marks-blank [] = refl
more_marks-blank (i ∷ is) = ap (λ rest. text ",?" ++ rest) (more_marks-blank is)

ruleset blank_laws = (
  placeholders-blank, message_condition-blank, tag_conditions-blank, token_conditions-blank,
  more_marks-blank,
)

issue_event_statement-blank :
    (c : EventDefCriteria)
    → (issue_event_statement (blank_event_def c)).sql ≡ (issue_event_statement c).sql
unfolding issue_event_statement
issue_event_statement-blank c = go c.event_id
  where
    go :
        (id : Bytes)
        → (issue_event_statement (blank_event_def (record c { event_id = id }))).sql
          ≡ (issue_event_statement (record c { event_id = id })).sql
    go [] = refl
    go (x ∷ xs) = refl

abbrev pub texts_of : Request → List Bytes
texts_of r = map (λ (s : Statement). s.sql) (statements_of r)

-- The texts of the statements stay the same when every value of the request, be it a text, a number
-- or a time, is taken out: no value gets into the text of a statement.
pub texts_of-blank :
    (any_event : EventClickhouse) (r : Request) → texts_of (blank any_event r) ≡ texts_of r
unfolding statements_of issue_metrics_statement events_statement list_events_statement
    count_events_statement field_filters_statement popular_tags_statement tag_values_statement
    count_fields_statement calculate_fields_statement events_per_day_statement store_event_statement
    first_statement last_statement next_statement prev_statement schemas_statement errors_statement
    slow_queries_statement filtered_groups_statement
texts_of-blank e (issue_metrics c) = simp blank_laws
texts_of-blank e (events_by_hour c) = simp blank_laws
texts_of-blank e (fields c) = refl
texts_of-blank e (events_per_day c) = refl
texts_of-blank e (issue_event c) = ap (λ s. s ∷ []) (issue_event_statement-blank c)
texts_of-blank e (field_counts c) = refl
texts_of-blank e (store ev) = refl
texts_of-blank e (events c) = simp blank_laws
texts_of-blank e (event_count c) = simp blank_laws
texts_of-blank e (pages c) = refl
texts_of-blank e (field_filters c) = simp blank_laws
texts_of-blank e (popular_tags c) = simp blank_laws
texts_of-blank e (tag_values c) = simp blank_laws
texts_of-blank e (filtered_groups tokens from to []) = refl
texts_of-blank e (filtered_groups tokens from to (i ∷ is)) = simp blank_laws
texts_of-blank e schemas = refl
texts_of-blank e slow_queries = refl
texts_of-blank e (errors c) = refl
