-- ===== src/Olap/Insert.antt =====
-- `StoreEvent` of internal/ch/ch.go.
use warnly.Base.{Bool, [], ◌∷◌, ◌++◌, if◌then◌else◌, Bytes, text, Result, ok, err}
use warnly.Db.Tables.{DbError, statement_failed}
use warnly.Event.Body.{EventClickhouse}
use warnly.Olap.Statement.{num, at, txt, nums, txts, Statement}

abbrev insert_event : Bytes
insert_event =
    text "INSERT INTO event (\n"
    ++ text "\t\tcreated_at, sdk_version, user, primary_hash, env, event_id,\n"
    ++ text "\t\tmessage, ipv6, release, title, ipv4,\n"
    ++ text
        "\t\texception_frames.in_app, contexts.key, exception_frames.colno, exception_frames.abs_path,\n"
    ++ text
        "\t\texception_frames.lineno, exception_stacks.type, exception_stacks.value, tags.key,\n"
    ++ text
        "\t\texception_frames.function, tags.value, exception_frames.filename, contexts.value,\n"
    ++ text
        "\t\tgid, user_name, user_username, user_email, pid, level, type, sdk_id, platform, retention_days, deleted\n"
    ++ text
        "\t) VALUES (?, ?, ?, ?, ?, ?, ?, ?, ?, ?, ?, ?, ?, ?, ?, ?, ?, ?, ?, ?, ?, ?, ?, ?, ?, ?, ?, ?, ?, ?, ?, ?, ?, ?)"

unfoldable pub store_event_statement : EventClickhouse → Statement
store_event_statement ev = record {
  sql = insert_event;
  args =
      at ev.created_at
      ∷ txt ev.stored_sdk_version
      ∷ txt ev.stored_user
      ∷ txt ev.primary_hash
      ∷ txt ev.env
      ∷ txt ev.stored_event_id
      ∷ txt ev.stored_message
      ∷ txt ev.ipv6
      ∷ txt ev.stored_release
      ∷ txt ev.title
      ∷ txt ev.ipv4
      ∷ nums ev.exception_frames_in_app
      ∷ txts ev.contexts_key
      ∷ nums ev.exception_frames_col_no
      ∷ txts ev.exception_frames_abs_path
      ∷ nums ev.exception_frames_line_no
      ∷ txts ev.exception_stacks_type
      ∷ txts ev.exception_stacks_value
      ∷ txts ev.tags_key
      ∷ txts ev.exception_frames_function
      ∷ txts ev.tags_value
      ∷ txts ev.exception_frames_filename
      ∷ txts ev.contexts_value
      ∷ num ev.group_id
      ∷ txt ev.user_name
      ∷ txt ev.user_username
      ∷ txt ev.user_email
      ∷ num ev.project_id
      ∷ num ev.stored_level
      ∷ num ev.event_type
      ∷ num ev.sdk_id
      ∷ num ev.stored_platform
      ∷ num ev.retention_days
      ∷ num ev.deleted
      ∷ [];
}

-- `AsyncInsert` takes the statement or refuses it.
unfoldable pub store_event : (Statement → Bool) → EventClickhouse → Result DbError (Unit {0})
unfolding store_event_statement
store_event insert ev = if insert (store_event_statement ev) then ok tt else err statement_failed
