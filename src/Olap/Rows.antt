-- ===== src/Olap/Rows.antt =====
-- What the methods of internal/ch/ch.go make of the rows that the driver answers.
use warnly.Base.{
  ℕ, ◌≡◌, ◌⊎◌, inl, inr, refl, sym, subst, ap, ◌∙◌, true, false, Option, none, some, List, [], ◌∷◌,
  ◌++◌, map, append_assoc, append-nil, Result, ok, err,
}
use warnly.Db.Tables.{DbError, statement_failed}
use warnly.Query.Parse.{QueryToken, Filter}
use warnly.Project.Types.{
  ListIssueMetricsCriteria, EventDefCriteria, FieldsCriteria, EventCriteria, ListTagsCriteria,
}
use warnly.Olap.Statement.{
  Statement, Answer, refused, rows, scan_rows, collect, rows_ended, FieldFilterCriteria, Schema,
  AnalyticsStoreErr, ListErrorsCriteria,
}
use warnly.Olap.Issues.{
  issue_metrics_statement, count_fields_statement, calculate_fields_statement,
  events_per_day_statement, events_statement, list_issue_metrics, count_fields, calculate_fields,
  calculate_events_per_day, calculate_events,
}
use warnly.Olap.Events.{list_events_statement, list_events}
use warnly.Olap.Tags.{
  field_filters_statement, popular_tags_statement, tag_values_statement, filtered_groups_statement,
  list_field_filters, list_popular_tags, list_tag_values, get_filtered_group_ids, sent,
}
use warnly.Olap.System.{schemas_statement, errors_statement, list_schemas, list_errors}
use warnly.Olap.Store.{Connection, clickhouse_store}

-- Some row cannot be scanned.
HasBroken : {R : Type 0} → List (Option R) → Type 0
HasBroken [] = ⊥
HasBroken (none ∷ rest) = Unit {0}
HasBroken (some r ∷ rest) = HasBroken rest

IsFaulty : {R : Type 0} → Answer R → Type 0
IsFaulty refused = Unit {0}
IsFaulty (rows answered end) = (end ≡ false) ⊎ HasBroken answered

-- All the rows of the answer, in their order, where the driver took the statement, every row could
-- be scanned and the rows ended without an error; and otherwise an error.
pub IsAllOrError : {R : Type 0} → Answer R → Result DbError (List R) → Type 0
IsAllOrError {R = R} a r =
    ((found : List R) × (a ≡ rows (map some found) true) × (r ≡ ok found))
    ⊎ (IsFaulty a × (r ≡ err statement_failed))

module _ {R : Type 0} where
  scan_rows-cases :
      (answered : List (Option R)) (scanned : List R)
      → ((found : List R) × (answered ≡ map some found)
          × (scan_rows answered scanned ≡ ok (scanned ++ found)))
        ⊎ (HasBroken answered × (scan_rows answered scanned ≡ err statement_failed))
  unfolding scan_rows HasBroken
  scan_rows-cases [] scanned = inl ([], refl, ap ok (sym (append-nil scanned)))
  scan_rows-cases (none ∷ rest) scanned = inr (tt, refl)
  scan_rows-cases (some r ∷ rest) scanned = elim (scan_rows-cases rest (scanned ++ r ∷ [])) [
    | inl (found, e, e') ↦
        inl (r ∷ found, ap (λ t. some r ∷ t) e, e' ∙ ap ok (append_assoc scanned (r ∷ []) found))
    | inr (broken, e) ↦ inr (broken, e)
  ]

  rows_ended-false :
      (r : Result DbError (List R))
      → (r ≡ err statement_failed) ⊎ ((found : List R) × (r ≡ ok found))
      → rows_ended false r ≡ err statement_failed
  rows_ended-false (ok all) cases = refl
  rows_ended-false (err e) (inl failed) = failed
  rows_ended-false (err e) (inr (found, absurd_case)) = cc

  collect-IsAllOrError : (a : Answer R) → IsAllOrError a (collect a)
  unfolding collect IsAllOrError IsFaulty
  collect-IsAllOrError refused = inr (tt, refl)
  collect-IsAllOrError (rows answered true) = elim (scan_rows-cases answered []) [
    | inl (found, e, e') ↦ inl (found, ap (λ t. rows t true) e, e')
    | inr (broken, e) ↦ inr (inr broken, e)
  ]
  collect-IsAllOrError (rows answered false) = inr (
    inl refl,
    rows_ended-false (scan_rows answered []) (elim (scan_rows-cases answered []) [
      | inl (found, e, e') ↦ inr (found, e')
      | inr (broken, e) ↦ inl e
    ]),
  )

-- Each of the twelve methods of the analytics store that return the rows as they are read gives all
-- the rows that the driver answers to its own statement, in their order, where the driver took the
-- statement, every row could be scanned and the rows ended without an error; and otherwise an error.
-- The look-up of groups is asked for at least one project.
pub clickhouse_store-IsAllOrError :
    (conn : Connection) (n : ℕ)
    → (metrics : ListIssueMetricsCriteria) (event : EventDefCriteria) (fields : FieldsCriteria)
    → (events : EventCriteria) (tags : ListTagsCriteria) (tokens : List QueryToken)
    → (from to project_id : ℕ) (project_ids : List ℕ) (groups : Statement)
    → (filters : Statement → Answer Filter) (filter_criteria : FieldFilterCriteria)
    → (schemas : Statement → Answer Schema)
    → (errors : Statement → Answer AnalyticsStoreErr) (error_criteria : ListErrorsCriteria)
    → filtered_groups_statement tokens from to (project_id ∷ project_ids) ≡ some groups
    → IsAllOrError
        (conn.metrics n (issue_metrics_statement metrics))
        ((clickhouse_store conn).list_issue_metrics metrics n)
      × IsAllOrError
          (conn.field_values n (count_fields_statement event))
          ((clickhouse_store conn).count_fields event n)
      × IsAllOrError
          (conn.tag_counts n (calculate_fields_statement fields))
          ((clickhouse_store conn).calculate_fields fields n)
      × IsAllOrError
          (conn.days n (events_per_day_statement event))
          ((clickhouse_store conn).calculate_events_per_day event n)
      × IsAllOrError
          (conn.hours n (events_statement metrics))
          ((clickhouse_store conn).calculate_events metrics n)
      × IsAllOrError
          (conn.entries n (list_events_statement events))
          ((clickhouse_store conn).list_events events n)
      × IsAllOrError
          (conn.tag_counts n (popular_tags_statement tags))
          ((clickhouse_store conn).list_popular_tags tags n)
      × IsAllOrError
          (conn.value_counts n (tag_values_statement tags))
          ((clickhouse_store conn).list_tag_values tags n)
      × IsAllOrError (conn.number n groups) (
          (clickhouse_store conn).get_filtered_group_ids tokens from to
            (project_id ∷ project_ids)
            n)
      × IsAllOrError
          (filters (field_filters_statement filter_criteria))
          (list_field_filters filters filter_criteria)
      × IsAllOrError (schemas schemas_statement) (list_schemas schemas)
      × IsAllOrError (errors (errors_statement error_criteria)) (list_errors errors error_criteria)
unfolding clickhouse_store list_issue_metrics count_fields calculate_fields calculate_events_per_day
    calculate_events list_events list_popular_tags list_tag_values get_filtered_group_ids
    list_field_filters list_schemas list_errors
clickhouse_store-IsAllOrError conn n metrics event fields events tags tokens from to i is groups
      filters fc schemas errors ec made =
    (
      collect-IsAllOrError (conn.metrics n (issue_metrics_statement metrics)),
      collect-IsAllOrError (conn.field_values n (count_fields_statement event)),
      collect-IsAllOrError (conn.tag_counts n (calculate_fields_statement fields)),
      collect-IsAllOrError (conn.days n (events_per_day_statement event)),
      collect-IsAllOrError (conn.hours n (events_statement metrics)),
      collect-IsAllOrError (conn.entries n (list_events_statement events)),
      collect-IsAllOrError (conn.tag_counts n (popular_tags_statement tags)),
      collect-IsAllOrError (conn.value_counts n (tag_values_statement tags)),
      subst (λ s. IsAllOrError (conn.number n groups) (sent (conn.number n) s)) (sym made)
          (collect-IsAllOrError (conn.number n groups)),
      collect-IsAllOrError (filters (field_filters_statement fc)),
      collect-IsAllOrError (schemas schemas_statement),
      collect-IsAllOrError (errors (errors_statement ec)),
    )
