-- ===== src/Olap/System.antt =====
-- The methods of internal/ch/ch.go on the analytics database itself, and internal/svc/system/system.go.
use warnly.Base.{
  ℕ, ◌+◌, ◌-◌, ◌*◌, ◌%◌, ◌^◌, List, [], ◌∷◌, ◌++◌, map, Bytes, text, Result, ok, ◌>>?◌,
}
use warnly.Db.Tables.{DbError}
use warnly.Olap.Statement.{
  at, Statement, Answer, collect, Schema, SqlQuery, AnalyticsStoreErr, ListErrorsCriteria,
}

abbrev schemas_by_size : Bytes
schemas_by_size =
    text "SELECT name, \n"
    ++ text "\t\t\t\t\t\t  formatReadableSize(total_bytes) AS readable_bytes,\n"
    ++ text "\t\t\t\t\t\t  total_bytes, \n"
    ++ text "\t\t\t\t\t\t  total_rows, \n"
    ++ text "\t\t\t\t\t\t  engine, \n"
    ++ text "\t\t\t\t\t\t  partition_key\n"
    ++ text "\t\t\t\t   FROM system.tables ORDER BY total_bytes DESC"

unfoldable pub schemas_statement : Statement
schemas_statement = record { sql = schemas_by_size; args = [] }

unfoldable pub list_schemas : (Statement → Answer Schema) → Result DbError (List Schema)
unfolding schemas_statement collect
list_schemas query = collect (query schemas_statement)

abbrev errors_by_count : Bytes
errors_by_count =
    text "SELECT name, count() AS count, max(last_error_time) AS max_last_error_time\n"
    ++ text "\t\t\t\t   FROM system.errors\n"
    ++ text "\t\t\t\t   WHERE last_error_time > toDateTime(?)\n"
    ++ text "\t\t\t\t   GROUP BY name\n"
    ++ text "\t\t\t\t   ORDER BY count DESC"

unfoldable pub errors_statement : ListErrorsCriteria → Statement
errors_statement c = record { sql = errors_by_count; args = at c.last_error_time ∷ [] }

unfoldable pub list_errors :
    (Statement → Answer AnalyticsStoreErr)
    → ListErrorsCriteria
    → Result DbError (List AnalyticsStoreErr)
unfolding errors_statement collect
list_errors query c = collect (query (errors_statement c))

abbrev slow_queries : Bytes
slow_queries =
    text "SELECT \n"
    ++ text "    \t\t\t\tnormalizeQuery(query) AS normalized_query,\n"
    ++ text "    \t\t\t\tavg(query_duration_ms) AS avg_duration,\n"
    ++ text "    \t\t\t\tavg(result_rows) AS avg_result_rows,\n"
    ++ text
        "    \t\t\t\tcount() / greatest(1, dateDiff('minute', min(event_time), max(event_time))) AS calls_per_minute,\n"
    ++ text "    \t\t\t\tcount() AS total_calls,\n"
    ++ text "    \t\t\t\tsum(read_bytes) AS rb,\n"
    ++ text "    \t\t\t\tformatReadableSize(sum(read_bytes)) AS total_read_bytes,\n"
    ++ text "    \t\t\t\tsum(read_bytes) / sum(sum(read_bytes)) OVER () * 100 AS percentage_iops,\n"
    ++ text
        "    \t\t\t\tsum(query_duration_ms) / sum(sum(query_duration_ms)) OVER () * 100 AS percentage_runtime,\n"
    ++ text "    \t\t\t\ttoString(normalized_query_hash) AS normalized_query_hash\n"
    ++ text "\t\t\t\tFROM system.query_log\n"
    ++ text "\t\t\t\tWHERE is_initial_query = 1\n"
    ++ text "\t\t\t\tAND event_time >= now() - INTERVAL 30 DAY\n"
    ++ text "\t\t\t\tAND type = 2\n"
    ++ text "\t\t\t\tGROUP BY normalized_query_hash, normalized_query\n"
    ++ text "\t\t\t\tORDER BY sum(read_bytes) DESC\n"
    ++ text "\t\t\t\tLIMIT 10"

unfoldable pub slow_queries_statement : Statement
slow_queries_statement = record { sql = slow_queries; args = [] }

-- The sum of a uint64, which wraps around.
unfoldable pub total_read_bytes : {F : Type 0} → List (SqlQuery F) → ℕ → ℕ
total_read_bytes [] total = total
total_read_bytes (q ∷ qs) total = total_read_bytes qs ((total + q.read_bytes) % 2 ^ 64)

module _ {F : Type 0} (float : ℕ → F) (percent : ℕ → ℕ → F) where
  -- The share of each query; `percent` is the arithmetic on floating-point numbers.
  unfoldable pub with_percents : List (SqlQuery F) → List (SqlQuery F)
  unfolding total_read_bytes
  with_percents queries =
      map
        (λ (q : SqlQuery F). record q {
          total_read_bytes_numeric = float (total_read_bytes queries 0);
          percent = percent q.read_bytes (total_read_bytes queries 0);
        })
        queries

  unfoldable pub list_slow_queries :
      (Statement → Answer (SqlQuery F)) → Result DbError (List (SqlQuery F))
  unfolding slow_queries_statement collect with_percents
  list_slow_queries query =
      collect (query slow_queries_statement) >>? λ queries. ok (with_percents queries)

-- internal/svc/system/system.go; `now` is the reading of the clock. A day is in nanoseconds.
unfoldable pub errors_of_last_day :
    (Statement → Answer AnalyticsStoreErr) → ℕ → Result DbError (List AnalyticsStoreErr)
unfolding list_errors
errors_of_last_day query now =
    list_errors query (record { last_error_time = now - 24 * 3_600_000_000_000 })
