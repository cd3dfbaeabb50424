-- ===== src/Db/Issues.antt =====
-- The statements of internal/mysql/issue.go and project.go that the ingestion of events uses.
use warnly.Base.{
  ℕ, ◌+◌, ◌&&◌, ◌∷◌, map, if◌then◌else◌, ◌==◌, Bytes, bytes_eq, find?, any, ok, err, or_err,
}
use warnly.Db.Tables.{Issue, Project, Env, not_found, project_not_found, duplicate, M, exec}

-- `UpdateLastSeen` of internal/warnly/issue.go.
pub record LastSeen : Type 0 where
  pub issue_id : ℕ
  pub last_seen : ℕ
  pub message : Bytes
  pub error_type : Bytes
  pub view : Bytes

unfoldable pub set_last_seen : LastSeen → Issue → Issue
set_last_seen upd row =
    if row.id == upd.issue_id
    then record row {
      last_seen = upd.last_seen;
      message = upd.message;
      error_type = upd.error_type;
      view = upd.view;
    }
    else row

module _ (env : Env) where
  -- No key makes the pair of a project and a hash unique: the first row that fits.
  unfoldable pub get_issue_by_hash : ℕ → Bytes → M Issue
  get_issue_by_hash project_id hash = exec env λ db. (
    or_err (find? (λ i. i.project_id == project_id && bytes_eq i.hash hash) db.issues) not_found,
    db,
  )

  -- A UUID that is there already is refused.
  unfoldable pub store_issue_row : Issue → M ℕ
  store_issue_row issue = exec env λ db. (
    if any (λ i. bytes_eq i.uuid issue.uuid) db.issues then err duplicate else ok db.next_id,
    if any (λ i. bytes_eq i.uuid issue.uuid) db.issues
        then record db { next_id = db.next_id + 1 }
        else record db {
          issues = record issue { id = db.next_id } ∷ db.issues;
          next_id = db.next_id + 1;
        },
  )

  unfoldable pub update_last_seen : LastSeen → M (Unit {0})
  unfolding set_last_seen
  update_last_seen upd =
      exec env (λ db. (ok tt, record db { issues = map (set_last_seen upd) db.issues }))

  unfoldable pub get_options : ℕ → Bytes → M Project
  get_options project_id key = exec env λ db. (
    or_err (find? (λ p. p.id == project_id && bytes_eq p.key key) db.projects) project_not_found,
    db,
  )
