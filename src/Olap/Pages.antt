-- ===== src/Olap/Pages.antt =====
-- `GetEventPagination` of internal/ch/ch.go: the neighbours of an event.
use warnly.Base.{List, [], ◌∷◌, ◌++◌, Bytes, text, Result, ok, ◌>>?◌}
use warnly.Db.Tables.{DbError}
use warnly.Project.Types.{EventPaginationCriteria, EventPagination}
use warnly.Olap.Statement.{Arg, num, at, txt, Statement, RowAnswer, scanned_text}

abbrev first_event : Bytes
first_event =
    text "SELECT replaceAll(toString(event_id), '-', '') FROM event \n"
    ++ text "\t\tWHERE deleted = 0 AND pid = ? AND gid = ? \n"
    ++ text "\t\tAND created_at >= toDateTime(?, 'UTC') AND created_at <= toDateTime(?, 'UTC')\n"
    ++ text "\t\tORDER BY created_at DESC LIMIT 1"

abbrev last_of_group : Bytes
last_of_group =
    text "SELECT replaceAll(toString(event_id), '-', '') FROM event \n"
    ++ text "\t\tWHERE deleted = 0 AND pid = ? AND gid = ? \n"
    ++ text "\t\tAND created_at >= toDateTime(?, 'UTC') AND created_at <= toDateTime(?, 'UTC')\n"
    ++ text "\t\tORDER BY created_at ASC LIMIT 1"

abbrev next_event : Bytes
next_event =
    text "SELECT replaceAll(toString(event_id), '-', '') FROM event \n"
    ++ text "\t\tWHERE deleted = 0 AND pid = ? AND gid = ? \n"
    ++ text "\t\tAND created_at >= toDateTime(?, 'UTC') AND created_at <= toDateTime(?, 'UTC')\n"
    ++ text
        "\t\tAND (created_at < toDateTime(?, 'UTC') OR (created_at = toDateTime(?, 'UTC') AND event_id < toUUID(?)))\n"
    ++ text "\t\tORDER BY created_at DESC, event_id DESC LIMIT 1"

abbrev prev_event : Bytes
prev_event =
    text "SELECT replaceAll(toString(event_id), '-', '') FROM event \n"
    ++ text "\t\tWHERE deleted = 0 AND pid = ? AND gid = ? \n"
    ++ text "\t\tAND created_at >= toDateTime(?, 'UTC') AND created_at <= toDateTime(?, 'UTC')\n"
    ++ text
        "\t\tAND (created_at > toDateTime(?, 'UTC') OR (created_at = toDateTime(?, 'UTC') AND event_id > toUUID(?)))\n"
    ++ text "\t\tORDER BY created_at ASC, event_id ASC LIMIT 1"

abbrev pub window_args : EventPaginationCriteria → List Arg
window_args c = num c.project_id ∷ num c.group_id ∷ at c.from ∷ at c.to ∷ []

abbrev pub position_args : EventPaginationCriteria → List Arg
position_args c = at c.created_at ∷ at c.created_at ∷ txt c.event_id ∷ []

unfoldable pub first_statement : EventPaginationCriteria → Statement
first_statement c = record { sql = first_event; args = window_args c }

unfoldable pub last_statement : EventPaginationCriteria → Statement
last_statement c = record { sql = last_of_group; args = window_args c }

unfoldable pub next_statement : EventPaginationCriteria → Statement
next_statement c = record { sql = next_event; args = window_args c ++ position_args c }

unfoldable pub prev_statement : EventPaginationCriteria → Statement
prev_statement c = record { sql = prev_event; args = window_args c ++ position_args c }

-- The four questions, of which the first that fails ends the call.
unfoldable pub get_event_pagination :
    (Statement → RowAnswer) → EventPaginationCriteria → Result DbError EventPagination
unfolding first_statement last_statement next_statement prev_statement scanned_text
get_event_pagination query c = scanned_text (query (first_statement c)) >>? λ first.
    scanned_text (query (last_statement c)) >>? λ last.
    scanned_text (query (next_statement c)) >>? λ next.
    scanned_text (query (prev_statement c)) >>? λ prev. ok (record {
      next_event_id = next;
      prev_event_id = prev;
      first_event_id = first;
      last_event_id = last;
    })
