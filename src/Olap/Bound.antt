-- ===== src/Olap/Bound.antt =====
-- Every placeholder of a statement of internal/ch/ch.go has its argument.
use warnly.Base.{
  ℕ, suc, ◌≡◌, refl, ap, Bool-cases, inl, inr, List, [], ◌∷◌, Bytes, text, is_empty, bytes_eq,
  length, length-append, length-map, All, arith,
}
use warnly.Query.Parse.{QueryToken, QueryValue}
use warnly.Project.Types.{
  ListIssueMetricsCriteria, EventDefCriteria, EventCriteria, ListTagsCriteria,
}
use warnly.Olap.Statement.{FieldFilterCriteria}
use warnly.Olap.Marks.{IsBound, marks, marks-append, marks-placeholders}
use warnly.Olap.Issues.{
  issue_metrics_statement, count_fields_statement, calculate_fields_statement,
  events_per_day_statement, events_statement,
}
use warnly.Olap.Insert.{store_event_statement}
use warnly.Olap.Events.{
  issue_event_statement, list_events_statement, count_events_statement, tag_conditions, tag_args,
  message_condition, message_args,
}
use warnly.Olap.Pages.{first_statement, last_statement, next_statement, prev_statement}
use warnly.Olap.Tags.{
  field_filters_statement, popular_tags_statement, tag_values_statement, filtered_groups_statement,
  token_conditions, token_args, more_marks,
}
use warnly.Olap.System.{schemas_statement, errors_statement, slow_queries_statement}
use warnly.Olap.Requests.{
  Request, issue_metrics, events_by_hour, fields, events_per_day, issue_event, field_counts, store,
  events, event_count, pages, field_filters, popular_tags, tag_values, filtered_groups, schemas,
  slow_queries, errors, statements_of,
}

marks-message_condition : (m : Bytes) → marks (message_condition m) ≡ length (message_args m)
marks-message_condition [] = refl
marks-message_condition (c ∷ cs) = refl

marks-tag_conditions :
    (tags : List (Bytes × QueryValue)) → marks (tag_conditions tags) ≡ length (tag_args tags)
unfolding tag_conditions tag_args
marks-tag_conditions [] = refl
marks-tag_conditions ((key, value) ∷ tags) = elim (Bool-cases value.is_not) [
  | inl negated ↦ rw (negated) (ap suc (marks-tag_conditions tags))
  | inr plain ↦ rw (plain) (ap suc (marks-tag_conditions tags))
]

marks-token_conditions :
    (tokens : List QueryToken) → marks (token_conditions tokens) ≡ length (token_args tokens)
unfolding token_conditions token_args
marks-token_conditions [] = refl
marks-token_conditions (t ∷ ts) = elim (Bool-cases t.is_raw_text) [
  | inl raw ↦ rw (raw) (ap (λ n. suc (suc n)) (marks-token_conditions ts))
  | inr field ↦ elim (Bool-cases (bytes_eq t.operator (text "is not"))) [
    | inl negated ↦ rw (field, negated) (ap suc (marks-token_conditions ts))
    | inr plain ↦ rw (field, plain) (ap suc (marks-token_conditions ts))
  ]
]

marks-more_marks : (ids : List ℕ) → marks (more_marks ids) ≡ length ids
unfolding more_marks
marks-more_marks [] = refl
marks-more_marks (i ∷ is) = ap suc (marks-more_marks is)

ruleset bound_laws = (
  marks-append, marks-placeholders, marks-message_condition, marks-tag_conditions,
  marks-token_conditions, marks-more_marks, length-append, length-map,
)

issue_metrics_statement-IsBound :
    (c : ListIssueMetricsCriteria) → IsBound (issue_metrics_statement c)
unfolding issue_metrics_statement
issue_metrics_statement-IsBound c = simp bound_laws (omega arith)

events_statement-IsBound : (c : ListIssueMetricsCriteria) → IsBound (events_statement c)
unfolding events_statement
events_statement-IsBound c = simp bound_laws (omega arith)

issue_event_statement-IsBound : (c : EventDefCriteria) → IsBound (issue_event_statement c)
unfolding issue_event_statement
issue_event_statement-IsBound c = elim (Bool-cases (is_empty c.event_id)) [
  | inl none_given ↦ rw (none_given) refl
  | inr given ↦ rw (given) refl
]

list_events_statement-IsBound : (c : EventCriteria) → IsBound (list_events_statement c)
unfolding list_events_statement
list_events_statement-IsBound c = simp bound_laws (omega arith)

count_events_statement-IsBound : (c : EventCriteria) → IsBound (count_events_statement c)
unfolding count_events_statement
count_events_statement-IsBound c = simp bound_laws (omega arith)

field_filters_statement-IsBound : (c : FieldFilterCriteria) → IsBound (field_filters_statement c)
unfolding field_filters_statement
field_filters_statement-IsBound c = simp bound_laws (omega arith)

popular_tags_statement-IsBound : (c : ListTagsCriteria) → IsBound (popular_tags_statement c)
unfolding popular_tags_statement
popular_tags_statement-IsBound c = simp bound_laws (omega arith)

tag_values_statement-IsBound : (c : ListTagsCriteria) → IsBound (tag_values_statement c)
unfolding tag_values_statement
tag_values_statement-IsBound c = simp bound_laws (omega arith)

-- In every statement of the analytics store there are as many placeholders as arguments, whatever
-- is asked for, and in whatever order a map of tags is visited.
pub statements_of-IsBound : (r : Request) → All IsBound (statements_of r)
unfolding statements_of count_fields_statement calculate_fields_statement events_per_day_statement
    store_event_statement first_statement last_statement next_statement prev_statement
    schemas_statement errors_statement slow_queries_statement filtered_groups_statement
statements_of-IsBound (issue_metrics c) = (issue_metrics_statement-IsBound c, tt)
statements_of-IsBound (events_by_hour c) = (events_statement-IsBound c, tt)
statements_of-IsBound (fields c) = (refl, tt)
statements_of-IsBound (events_per_day c) = (refl, tt)
statements_of-IsBound (issue_event c) = (issue_event_statement-IsBound c, tt)
statements_of-IsBound (field_counts c) = (refl, tt)
statements_of-IsBound (store ev) = (refl, tt)
statements_of-IsBound (events c) = (list_events_statement-IsBound c, tt)
statements_of-IsBound (event_count c) = (count_events_statement-IsBound c, tt)
statements_of-IsBound (pages c) = (refl, (refl, (refl, (refl, tt))))
statements_of-IsBound (field_filters c) = (field_filters_statement-IsBound c, tt)
statements_of-IsBound (popular_tags c) = (popular_tags_statement-IsBound c, tt)
statements_of-IsBound (tag_values c) = (tag_values_statement-IsBound c, tt)
statements_of-IsBound (filtered_groups tokens from to []) = tt
statements_of-IsBound (filtered_groups tokens from to (i ∷ is)) =
    (simp bound_laws (omega arith), tt)
statements_of-IsBound schemas = (refl, tt)
statements_of-IsBound slow_queries = (refl, tt)
statements_of-IsBound (errors c) = (refl, tt)
