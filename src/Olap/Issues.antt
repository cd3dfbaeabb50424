-- ===== src/Olap/Issues.antt =====
-- The methods of internal/ch/ch.go that count the events of issues and projects.
use warnly.Base.{List, [], ◌∷◌, ◌++◌, Bytes, text, Result}
use warnly.Db.Tables.{DbError}
use warnly.Project.Types.{
  ListIssueMetricsCriteria, IssueMetrics, EventDefCriteria, FieldsCriteria, FieldValueNum, TagCount,
  EventPerDay, EventsPerHour,
}
use warnly.Olap.Statement.{num, at, Statement, Answer, collect, placeholders, args_of}

abbrev metrics_of_groups : Bytes
metrics_of_groups =
    text "SELECT gid, \n"
    ++ text "\t\t\t\t\t count() AS times_seen, \n"
    ++ text "\t\t\t\t\t min(created_at) AS first_seen, \n"
    ++ text "\t\t\t\t\t max(created_at) AS last_seen,\n"
    ++ text "\t\t\t\t\t ifNull(uniq(nullIf(user, '')), 0) AS user_count \n"
    ++ text "\t\t\t   FROM event \n"
    ++ text "\t\t\t   WHERE deleted = 0\n"
    ++ text "\t\t\t   AND gid IN ("

abbrev metrics_of_projects : Bytes
metrics_of_projects =
    text ")\n"
    ++ text "\t\t\t   AND created_at >= toDateTime(?, 'UTC')\n"
    ++ text "\t\t\t   AND created_at <= toDateTime(?, 'UTC')\n"
    ++ text "\t\t\t   AND pid IN ("

abbrev metrics_by_group : Bytes
metrics_by_group = text ")\n" ++ (text "\t\t\t   GROUP BY gid")

unfoldable pub issue_metrics_statement : ListIssueMetricsCriteria → Statement
issue_metrics_statement c = record {
  sql =
      metrics_of_groups
      ++ (placeholders c.group_ids
          ++ (metrics_of_projects ++ (placeholders c.project_ids ++ metrics_by_group)));
  args = args_of c.group_ids ++ (at c.from ∷ at c.to ∷ args_of c.project_ids);
}

unfoldable pub list_issue_metrics :
    (Statement → Answer IssueMetrics)
    → ListIssueMetricsCriteria
    → Result DbError (List IssueMetrics)
unfolding issue_metrics_statement collect
list_issue_metrics query c = collect (query (issue_metrics_statement c))

abbrev fields_of_group : Bytes
fields_of_group =
    text "SELECT \n"
    ++ text "\t\t\t\t   \ttag,\n"
    ++ text "\t\t\t\t   \tvalue,\n"
    ++ text "\t\t\t\t   \tcount() AS count,\n"
    ++ text "\t\t\t\t   \tmin(created_at) AS first_seen,\n"
    ++ text "\t\t\t\t   \tmax(created_at) AS last_seen\n"
    ++ text "\t\t\t\t   FROM event\n"
    ++ text "\t\t\t\t   ARRAY JOIN \n"
    ++ text "\t\t\t\t   \ttags.key AS tag,\n"
    ++ text "\t\t\t\t   \ttags.value AS value\n"
    ++ text "\t\t\t\t   WHERE gid = ?\n"
    ++ text "\t\t\t\t   AND deleted = 0\n"
    ++ text "\t\t\t\t   AND created_at >= toDateTime(?, 'UTC')\n"
    ++ text "\t\t\t\t   AND created_at < toDateTime(?, 'UTC')\n"
    ++ text "\t\t\t\t   AND pid = ?\n"
    ++ text "\t\t\t\t   GROUP BY tag, value\n"
    ++ text "\t\t\t\t   ORDER BY count DESC\n"
    ++ text "\t\t\t\t   LIMIT 4 BY tag \n"
    ++ text "\t\t\t\t   LIMIT 1000"

unfoldable pub count_fields_statement : EventDefCriteria → Statement
count_fields_statement c = record {
  sql = fields_of_group;
  args = num c.group_id ∷ at c.from ∷ at c.to ∷ num c.project_id ∷ [];
}

unfoldable pub count_fields :
    (Statement → Answer FieldValueNum) → EventDefCriteria → Result DbError (List FieldValueNum)
unfolding count_fields_statement collect
count_fields query c = collect (query (count_fields_statement c))

abbrev tags_of_group : Bytes
tags_of_group =
    text "\n"
    ++ text "\t\tSELECT \n"
    ++ text "    \t\tarrayJoin(tags.key) AS tag,\n"
    ++ text "    \t\tcount() AS count\n"
    ++ text "\t\tFROM event\n"
    ++ text "\t\tPREWHERE \n"
    ++ text "    \t\tgid = ?\n"
    ++ text "    \t\tAND deleted = 0\n"
    ++ text "\t\tWHERE \n"
    ++ text "    \t\tcreated_at >= toDateTime(?, 'UTC')\n"
    ++ text "    \tAND created_at < toDateTime(?, 'UTC')\n"
    ++ text "    \tAND pid = ?\n"
    ++ text "\t\tGROUP BY tag\n"
    ++ text "\t\tORDER BY count DESC\n"
    ++ text "\t\tLIMIT 1000"

unfoldable pub calculate_fields_statement : FieldsCriteria → Statement
calculate_fields_statement c = record {
  sql = tags_of_group;
  args = num c.issue_id ∷ at c.from ∷ at c.to ∷ num c.project_id ∷ [];
}

unfoldable pub calculate_fields :
    (Statement → Answer TagCount) → FieldsCriteria → Result DbError (List TagCount)
unfolding calculate_fields_statement collect
calculate_fields query c = collect (query (calculate_fields_statement c))

abbrev days_of_group : Bytes
days_of_group =
    text "SELECT \n"
    ++ text "\t\t\t\t   \tgid,\n"
    ++ text "\t\t\t\t\ttoDate(created_at, 'UTC') AS time,\n"
    ++ text "\t\t\t\t\tcount() AS event_count\n"
    ++ text "\t\t\t\t   FROM event\n"
    ++ text "\t\t\t\t   WHERE deleted = 0\n"
    ++ text "\t\t\t\t   AND gid = ?\n"
    ++ text "\t\t\t\t   AND pid = ?\n"
    ++ text "\t\t\t\t   AND created_at >= toDateTime(?, 'UTC')\n"
    ++ text "\t\t\t\t   AND created_at < toDateTime(?, 'UTC')\n"
    ++ text "\t\t\t\t   GROUP BY gid, time\n"
    ++ text "\t\t\t\t   ORDER BY time DESC, gid ASC"

unfoldable pub events_per_day_statement : EventDefCriteria → Statement
events_per_day_statement c = record {
  sql = days_of_group;
  args = num c.group_id ∷ num c.project_id ∷ at c.from ∷ at c.to ∷ [];
}

unfoldable pub calculate_events_per_day :
    (Statement → Answer EventPerDay) → EventDefCriteria → Result DbError (List EventPerDay)
unfolding events_per_day_statement collect
calculate_events_per_day query c = collect (query (events_per_day_statement c))

abbrev hours_of_projects : Bytes
hours_of_projects =
    text "SELECT \n"
    ++ text "    \t\t  \ttoStartOfHour(created_at, 'UTC') AS ts,\n"
    ++ text "\t\t\t\tpid,\n"
    ++ text "\t\t\t\tcount() AS event_count\n"
    ++ text "\t\t\t  FROM event\n"
    ++ text "\t\t\t  WHERE deleted = 0\n"
    ++ text "\t\t\t  AND pid IN ("

abbrev hours_by_project : Bytes
hours_by_project =
    text ")\n"
    ++ text "\t\t\t  AND created_at >= toDateTime(?, 'UTC')\n"
    ++ text "\t\t\t  AND created_at < toDateTime(?, 'UTC')\n"
    ++ text "\t\t\t  GROUP BY ts, pid\n"
    ++ text "\t\t\t  ORDER BY ts ASC\n"
    ++ text "\t\t\t  LIMIT 5000"

unfoldable pub events_statement : ListIssueMetricsCriteria → Statement
events_statement c = record {
  sql = hours_of_projects ++ (placeholders c.project_ids ++ hours_by_project);
  args = args_of c.project_ids ++ (at c.from ∷ at c.to ∷ []);
}

unfoldable pub calculate_events :
    (Statement → Answer EventsPerHour)
    → ListIssueMetricsCriteria
    → Result DbError (List EventsPerHour)
unfolding events_statement collect
calculate_events query c = collect (query (events_statement c))
