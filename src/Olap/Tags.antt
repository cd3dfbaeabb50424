-- ===== src/Olap/Tags.antt =====
-- The methods of internal/ch/ch.go that look up tags, and groups by tags.
use warnly.Base.{
  ℕ, Option, none, some, List, [], ◌∷◌, ◌++◌, if◌then◌else◌, Bytes, text, bytes_eq, Result, err,
}
use warnly.Db.Tables.{DbError, panicked}
use warnly.Query.Parse.{QueryToken, Filter}
use warnly.Project.Types.{ListTagsCriteria, TagCount, TagValueCount}
use warnly.Olap.Events.{tag_text}
use warnly.Olap.Statement.{
  Arg, num, at, txt, Statement, Answer, collect, placeholders, args_of, FieldFilterCriteria,
}

abbrev filters_of_projects : Bytes
filters_of_projects =
    text "SELECT\n"
    ++ text "\t\t\t\ttags.key AS tag_key,\n"
    ++ text "\t\t\t\ttags.value AS tag_value,\n"
    ++ text "\t\t\t\tcount() AS frequency\n"
    ++ text "\t\t\tFROM event\n"
    ++ text "\t\t\tARRAY JOIN tags\n"
    ++ text "\t\t\tWHERE\n"
    ++ text "\t\t\t\tdeleted = 0\n"
    ++ text "\t\t\tAND pid IN ("

abbrev filters_by_count : Bytes
filters_by_count =
    text ")\n"
    ++ text "\t\t\tAND created_at >= toDateTime(?, 'UTC')\n"
    ++ text "\t\t\tAND created_at < toDateTime(?, 'UTC')\n"
    ++ text "\t\t\tGROUP BY tag_key, tag_value\n"
    ++ text "\t\t\tORDER BY frequency DESC\n"
    ++ text "\t\t\tLIMIT 1000"

unfoldable pub field_filters_statement : FieldFilterCriteria → Statement
field_filters_statement c = record {
  sql = filters_of_projects ++ (placeholders c.project_ids ++ filters_by_count);
  args = args_of c.project_ids ++ (at c.from ∷ at c.to ∷ []);
}

unfoldable pub list_field_filters :
    (Statement → Answer Filter) → FieldFilterCriteria → Result DbError (List Filter)
unfolding field_filters_statement collect
list_field_filters query c = collect (query (field_filters_statement c))

abbrev popular_of_projects : Bytes
popular_of_projects =
    text "SELECT tag, count() AS count\n"
    ++ text "\t\t\t   FROM event\n"
    ++ text "\t\t\t   ARRAY JOIN tags.key AS tag\n"
    ++ text "\t\t\t   WHERE deleted = 0\n"
    ++ text "\t\t\t   AND created_at >= toDateTime(?, 'UTC')\n"
    ++ text "\t\t\t   AND created_at <= toDateTime(?, 'UTC')\n"
    ++ text "\t\t\t   AND pid IN ("

abbrev popular_by_count : Bytes
popular_by_count =
    text ")\n"
    ++ text "\t\t\t   GROUP BY tag\n"
    ++ text "\t\t\t   ORDER BY count DESC\n"
    ++ text "\t\t\t   LIMIT ?"

unfoldable pub popular_tags_statement : ListTagsCriteria → Statement
popular_tags_statement c = record {
  sql = popular_of_projects ++ (placeholders c.project_ids ++ popular_by_count);
  args = (at c.from ∷ at c.to ∷ args_of c.project_ids) ++ num c.limit ∷ [];
}

unfoldable pub list_popular_tags :
    (Statement → Answer TagCount) → ListTagsCriteria → Result DbError (List TagCount)
unfolding popular_tags_statement collect
list_popular_tags query c = collect (query (popular_tags_statement c))

abbrev values_of_projects : Bytes
values_of_projects =
    text "SELECT value, count() AS count\n"
    ++ text "\t\t\t   FROM event\n"
    ++ text "\t\t\t   ARRAY JOIN tags.key AS tag, tags.value AS value\n"
    ++ text "\t\t\t   WHERE tag = ?\n"
    ++ text "\t\t\t   AND deleted = 0\n"
    ++ text "\t\t\t   AND created_at >= toDateTime(?, 'UTC')\n"
    ++ text "\t\t\t   AND created_at <= toDateTime(?, 'UTC')\n"
    ++ text "\t\t\t   AND pid IN ("

abbrev values_by_count : Bytes
values_by_count =
    text ")\n"
    ++ text "\t\t\t   GROUP BY value\n"
    ++ text "\t\t\t   ORDER BY count DESC\n"
    ++ text "\t\t\t   LIMIT ?"

unfoldable pub tag_values_statement : ListTagsCriteria → Statement
tag_values_statement c = record {
  sql = values_of_projects ++ (placeholders c.project_ids ++ values_by_count);
  args = (txt c.tag ∷ at c.from ∷ at c.to ∷ args_of c.project_ids) ++ num c.limit ∷ [];
}

unfoldable pub list_tag_values :
    (Statement → Answer TagValueCount) → ListTagsCriteria → Result DbError (List TagValueCount)
unfolding tag_values_statement collect
list_tag_values query c = collect (query (tag_values_statement c))

abbrev groups_start : Bytes
groups_start = text "SELECT DISTINCT gid FROM event WHERE deleted = 0 AND pid IN (?"

abbrev groups_in_range : Bytes
groups_in_range =
    text ") AND created_at >= toDateTime(?, 'UTC') AND created_at <= toDateTime(?, 'UTC')"

abbrev raw_condition : Bytes
raw_condition =
    text "\n"
    ++ text "\t\t\t AND (notEquals(positionCaseInsensitive(message, ?), 0) \n"
    ++ text "\t\t\t OR notEquals(positionCaseInsensitive(title, ?), 0))"

-- What the loop over the terms of a query writes.
unfoldable pub token_conditions : List QueryToken → Bytes
token_conditions [] = []
token_conditions (t ∷ ts) =
    (if t.is_raw_text
      then raw_condition
      else (if bytes_eq t.operator (text "is not")
          then text " AND not has(_tags_hash_map, cityHash64(?))"
          else text " AND has(_tags_hash_map, cityHash64(?))"))
    ++ token_conditions ts

unfoldable pub token_args : List QueryToken → List Arg
token_args [] = []
token_args (t ∷ ts) =
    (if t.is_raw_text then txt t.value ∷ txt t.value ∷ [] else txt (tag_text t.key t.value) ∷ [])
    ++ token_args ts

-- `strings.Repeat(",?", n)`.
unfoldable pub more_marks : List ℕ → Bytes
more_marks [] = []
more_marks (i ∷ is) = text ",?" ++ more_marks is

-- `strings.Repeat` panics at a negative count, where there is no project.
unfoldable pub filtered_groups_statement : List QueryToken → ℕ → ℕ → List ℕ → Option Statement
unfolding token_conditions token_args more_marks
filtered_groups_statement tokens from to [] = none
filtered_groups_statement tokens from to (i ∷ is) = some (record {
  sql = groups_start ++ (more_marks is ++ (groups_in_range ++ token_conditions tokens));
  args = args_of (i ∷ is) ++ (at from ∷ at to ∷ token_args tokens);
})

abbrev pub sent : (Statement → Answer ℕ) → Option Statement → Result DbError (List ℕ)
unfolding collect
sent query none = err panicked
sent query (some s) = collect (query s)

unfoldable pub get_filtered_group_ids :
    (Statement → Answer ℕ) → List QueryToken → ℕ → ℕ → List ℕ → Result DbError (List ℕ)
unfolding filtered_groups_statement sent
get_filtered_group_ids query tokens from to project_ids =
    sent query (filtered_groups_statement tokens from to project_ids)
