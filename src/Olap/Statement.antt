-- ===== src/Olap/Statement.antt =====
-- What internal/ch/ch.go sends to ClickHouse, and what it makes of the answer.
use warnly.Base.{
  join, ℕ, Bool, true, false, Option, none, some, List, [], ◌∷◌, ◌++◌, map, Bytes, text, Result, ok,
  err,
}
use warnly.Db.Tables.{DbError, statement_failed}

-- An argument for a placeholder.
pub data Arg : Type 0 where
  num : ℕ → Arg
  at : ℕ → Arg
  txt : Bytes → Arg
  nums : List ℕ → Arg
  txts : List Bytes → Arg

pub record Statement : Type 0 where
  pub sql : Bytes
  pub args : List Arg

-- The driver refuses a statement, or gives rows, each of which can be scanned or not, and says
-- whether they ended without an error.
pub data Answer (R : Type 0) : Type 0 where
  refused : Answer R
  rows : List (Option R) → Bool → Answer R

-- The loop over the rows, with those scanned so far.
unfoldable pub scan_rows : {R : Type 0} → List (Option R) → List R → Result DbError (List R)
scan_rows [] scanned = ok scanned
scan_rows (none ∷ rest) scanned = err statement_failed
scan_rows (some r ∷ rest) scanned = scan_rows rest (scanned ++ r ∷ [])

-- `rows.Err()`.
abbrev pub rows_ended : {R : Type 0} → Bool → Result DbError R → Result DbError R
rows_ended true r = r
rows_ended false (ok a) = err statement_failed
rows_ended false (err e) = err e

-- What every method that lists rows makes of the driver's answer: the error of `Query`, the loop, and
-- then `rows.Err()`.
unfoldable pub collect : {R : Type 0} → Answer R → Result DbError (List R)
unfolding scan_rows
collect refused = err statement_failed
collect (rows rs end) = rows_ended end (scan_rows rs [])

-- `if rows.Next()`: the first row, or a value where there is none.
abbrev pub scan_first : {R : Type 0} → R → List (Option R) → Result DbError R
scan_first default [] = ok default
scan_first default (none ∷ rest) = err statement_failed
scan_first default (some r ∷ rest) = ok r

unfoldable pub first_or : {R : Type 0} → R → Answer R → Result DbError R
first_or default refused = err statement_failed
first_or default (rows rs end) = rows_ended end (scan_first default rs)

-- The placeholders of `createPlaceholdersAndArgs`, joined by commas, and its arguments.
unfoldable pub placeholders : List ℕ → Bytes
placeholders items = join (text ",") (map (λ _. text "?") items)

abbrev pub args_of : List ℕ → List Arg
args_of items = map num items

-- `QueryRow(…).Scan` of a text: no row leaves it empty.
pub data RowAnswer : Type 0 where
  no_row broken : RowAnswer
  one : Bytes → RowAnswer

unfoldable pub scanned_text : RowAnswer → Result DbError Bytes
scanned_text no_row = ok []
scanned_text broken = err statement_failed
scanned_text (one bytes) = ok bytes

-- internal/warnly/system.go and analytics.go.
pub record Schema : Type 0 where
  pub name : Bytes
  pub readable_bytes : Bytes
  pub engine : Bytes
  pub partition_key : Bytes
  pub total_bytes : ℕ
  pub total_rows : ℕ

pub record SqlQuery (F : Type 0) : Type 0 where
  pub normalized_query : Bytes
  pub total_read_bytes : Bytes
  pub normalized_query_hash : Bytes
  pub total_read_bytes_numeric : F
  pub avg_duration : F
  pub avg_result_rows : F
  pub calls_per_minute : F
  pub total_calls : ℕ
  pub percentage_iops : F
  pub percentage_runtime : F
  pub percent : F
  pub read_bytes : ℕ

pub record AnalyticsStoreErr : Type 0 where
  pub max_last_error_time : ℕ
  pub name : Bytes
  pub count : ℕ

pub record ListErrorsCriteria : Type 0 where
  pub last_error_time : ℕ

pub record FieldFilterCriteria : Type 0 where
  pub from : ℕ
  pub to : ℕ
  pub project_ids : List ℕ
