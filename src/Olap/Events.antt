-- ===== src/Olap/Events.antt =====
-- The methods of internal/ch/ch.go that read the events of an issue.
use warnly.Base.{ℕ, List, [], ◌∷◌, ◌++◌, if◌then◌else◌, Bytes, text, is_empty, Result}
use warnly.Db.Tables.{DbError}
use warnly.Query.Parse.{QueryValue}
use warnly.Project.Types.{EventDefCriteria, IssueEvent, EventCriteria, EventEntry}
use warnly.Olap.Statement.{Arg, num, at, txt, Statement, Answer, collect, first_or}

abbrev event_by_id : Bytes
event_by_id =
    text "SELECT replaceAll(toString(event_id), '-', '') AS event_id,\n"
    ++ text "\t\t\tcreated_at,\n"
    ++ text "\t\t\tenv, release,\n"
    ++ text "\t\t\tuser, user_username, user_name, user_email,\n"
    ++ text "\t\t\ttags.key, tags.value, contexts.key, contexts.value, message,\n"
    ++ text "\t\t\texception_frames.abs_path, exception_frames.colno,\n"
    ++ text "\t\t\texception_frames.function, exception_frames.lineno,\n"
    ++ text "\t\t\texception_frames.in_app\n"
    ++ text "\t\t\tFROM event WHERE\n"
    ++ text "\t\t\tdeleted = 0\n"
    ++ text "\t\t\tAND event_id = ?\n"
    ++ text "\t\t\tAND pid = ?\n"
    ++ text "\t\t\tAND gid = ?\n"
    ++ text "\t\t\tLIMIT 1"

abbrev event_in_range : Bytes
event_in_range =
    text "SELECT replaceAll(toString(event_id), '-', '') AS event_id,\n"
    ++ text "\t\t\tcreated_at,\n"
    ++ text "\t\t\tenv, release,\n"
    ++ text "\t\t\tuser, user_username, user_name, user_email,\n"
    ++ text "\t\t\ttags.key, tags.value, contexts.key, contexts.value, message,\n"
    ++ text "\t\t\texception_frames.abs_path, exception_frames.colno,\n"
    ++ text "\t\t\texception_frames.function, exception_frames.lineno,\n"
    ++ text "\t\t\texception_frames.in_app\n"
    ++ text "\t\t\tFROM event WHERE\n"
    ++ text "\t\t\tdeleted = 0\n"
    ++ text "\t\t\tAND created_at >= toDateTime(?, 'UTC')\n"
    ++ text "\t\t\tAND created_at < toDateTime(?, 'UTC')\n"
    ++ text "\t\t\tAND pid = ?\n"
    ++ text "\t\t\tAND gid = ?\n"
    ++ text "\t\t\tLIMIT 1"

unfoldable pub issue_event_statement : EventDefCriteria → Statement
issue_event_statement c =
    if is_empty c.event_id
    then (record {
      sql = event_in_range;
      args = at c.from ∷ at c.to ∷ num c.project_id ∷ num c.group_id ∷ [];
    })
    else (record {
      sql = event_by_id;
      args = txt c.event_id ∷ num c.project_id ∷ num c.group_id ∷ [];
    })

abbrev pub no_issue_event : IssueEvent
no_issue_event = record {
  user_id = [];
  user_email = [];
  user_name = [];
  user_username = [];
  event_id = [];
  created_at = 0;
  env_name = [];
  release_name = [];
  tags_key = [];
  tags_value = [];
  contexts_key = [];
  contexts_value = [];
  message = [];
  exception_frames_abs_path = [];
  exception_frames_colno = [];
  exception_frames_function = [];
  exception_frames_lineno = [];
  exception_frames_in_app = [];
}

unfoldable pub get_issue_event :
    (Statement → Answer IssueEvent) → EventDefCriteria → Result DbError IssueEvent
unfolding issue_event_statement first_or
get_issue_event query c = first_or no_issue_event (query (issue_event_statement c))

abbrev events_of_group : Bytes
events_of_group =
    text "SELECT \n"
    ++ text "\t\t\t  \treplaceAll(toString(event_id), '-', '') AS event_id,\n"
    ++ text "\t\t\t\tcreated_at,\n"
    ++ text "\t\t\t\ttitle,\n"
    ++ text "\t\t\t\tmessage,\n"
    ++ text "\t\t\t\trelease,\n"
    ++ text "\t\t\t\tenv,\n"
    ++ text "\t\t\t\tuser,\n"
    ++ text "\t\t\t\tuser_email,\n"
    ++ text "\t\t\t\tuser_username,\n"
    ++ text "\t\t\t\tuser_name,\n"
    ++ text "\t\t\t\ttags.value[indexOf(tags.key, 'os')] AS os\n"
    ++ text "\t\t\tFROM event\n"
    ++ text "\t\t\tWHERE deleted = 0\n"
    ++ text "\t\t\tAND gid = ?\n"
    ++ text "\t\t\tAND created_at >= toDateTime(?, 'UTC')\n"
    ++ text "\t\t\tAND created_at < toDateTime(?, 'UTC')"

abbrev count_of_group : Bytes
count_of_group =
    text "SELECT count() AS count\n"
    ++ text "\t\t\t  FROM event \n"
    ++ text "\t\t\t  PREWHERE gid = ?\n"
    ++ text "\t\t\t  WHERE deleted = 0\n"
    ++ text "\t\t\t  AND created_at >= toDateTime(?, 'UTC')\n"
    ++ text "\t\t\t  AND created_at < toDateTime(?, 'UTC')"

abbrev has_tag_sql : Bytes
has_tag_sql = text " AND has(_tags_hash_map, cityHash64(?))"

abbrev not_has_tag_sql : Bytes
not_has_tag_sql = text " AND not has(_tags_hash_map, cityHash64(?))"

-- `fmt.Sprintf("%s=%s", key, value)`.
abbrev pub tag_text : Bytes → Bytes → Bytes
tag_text key value = key ++ (text "=" ++ value)

-- What the loop over the map of tags writes, in the order in which it visits the entries.
unfoldable pub tag_conditions : List (Bytes × QueryValue) → Bytes
tag_conditions [] = []
tag_conditions ((key, value) ∷ tags) =
    (if value.is_not then not_has_tag_sql else has_tag_sql) ++ tag_conditions tags

unfoldable pub tag_args : List (Bytes × QueryValue) → List Arg
tag_args [] = []
tag_args ((key, value) ∷ tags) = txt (tag_text key value.value) ∷ tag_args tags

abbrev pub message_condition : Bytes → Bytes
message_condition [] = []
message_condition (c ∷ cs) = text " AND notEquals(positionCaseInsensitive(message, ?), 0)"

abbrev pub message_args : Bytes → List Arg
message_args [] = []
message_args (c ∷ cs) = txt (c ∷ cs) ∷ []

unfoldable pub list_events_statement : EventCriteria → Statement
unfolding tag_conditions tag_args
list_events_statement c = record {
  sql =
      events_of_group
      ++ (message_condition c.message
          ++ (tag_conditions c.tags
              ++ (text " AND in(pid, ?)" ++ text " ORDER BY created_at DESC LIMIT ? OFFSET ?")));
  args =
      num c.group_id
      ∷ at c.from
      ∷ at c.to
      ∷ (message_args c.message
          ++ (tag_args c.tags ++ (num c.project_id ∷ num c.limit ∷ num c.offset ∷ [])));
}

unfoldable pub list_events :
    (Statement → Answer EventEntry) → EventCriteria → Result DbError (List EventEntry)
unfolding list_events_statement collect
list_events query c = collect (query (list_events_statement c))

unfoldable pub count_events_statement : EventCriteria → Statement
unfolding tag_conditions tag_args
count_events_statement c = record {
  sql =
      count_of_group
      ++ (message_condition c.message ++ (tag_conditions c.tags ++ text " AND in(pid, ?)"));
  args =
      num c.group_id
      ∷ at c.from
      ∷ at c.to
      ∷ (message_args c.message ++ (tag_args c.tags ++ (num c.project_id ∷ [])));
}

unfoldable pub count_events : (Statement → Answer ℕ) → EventCriteria → Result DbError ℕ
unfolding count_events_statement first_or
count_events query c = first_or 0 (query (count_events_statement c))
