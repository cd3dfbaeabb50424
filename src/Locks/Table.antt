-- ===== src/Locks/Table.antt =====
-- The lock table as a list of rows, and the statements as functions on it.
use warnly.Base.{
  ℕ, Bool, not, ◌&&◌, Option, none, some, List, [], ◌∷◌, if◌then◌else◌, ◌==◌, ltb, Bytes, bytes_eq,
  filter,
}

-- `warnly.AlertLock`, and a row of the table.
pub record AlertLock : Type 0 where
  pub locked_at : ℕ
  pub expires_at : ℕ
  pub instance_id : Bytes
  pub alert_id : ℕ

abbrev pub Locks : Type 0
Locks = List AlertLock

-- The assignments of ON DUPLICATE KEY UPDATE, from left to right, each reading the row as the one
-- before left it.
set_instance : ℕ → AlertLock → AlertLock → AlertLock
set_instance now new row =
    if ltb row.expires_at now then record row { instance_id = new.instance_id } else row

set_locked_at : ℕ → AlertLock → AlertLock → AlertLock
set_locked_at now new row =
    if ltb row.expires_at now then record row { locked_at = new.locked_at } else row

set_expires_at : ℕ → AlertLock → AlertLock → AlertLock
set_expires_at now new row =
    if ltb row.expires_at now then record row { expires_at = new.expires_at } else row

unfoldable pub on_duplicate : ℕ → AlertLock → AlertLock → AlertLock
unfolding set_instance set_locked_at set_expires_at
on_duplicate now new row = set_expires_at now new (set_locked_at now new (set_instance now new row))

-- INSERT … ON DUPLICATE KEY UPDATE, on the primary key `alert_id`.
unfoldable pub upsert : ℕ → AlertLock → Locks → Locks
upsert now new [] = new ∷ []
upsert now new (row ∷ locks) =
    if row.alert_id == new.alert_id
    then on_duplicate now new row ∷ locks
    else row ∷ upsert now new locks

-- SELECT instance_id … WHERE alert_id = ? AND expires_at > NOW(): the first row that fits.
unfoldable pub holder : ℕ → ℕ → Locks → Option Bytes
holder now alert_id [] = none
holder now alert_id (row ∷ locks) =
    if row.alert_id == alert_id && ltb now row.expires_at
    then some row.instance_id
    else holder now alert_id locks

-- `currentInstanceID == lock.InstanceID`; no row is an error.
abbrev pub is_holder : Bytes → Option Bytes → Option Bool
is_holder instance_id none = none
is_holder instance_id (some current) = some (bytes_eq current instance_id)

-- `AcquireAlertLock`, when both statements run: the first at `now`, the second at `later`.
unfoldable pub acquire : ℕ → ℕ → AlertLock → Locks → Option Bool × Locks
acquire now later lock locks =
    let locks' = upsert now lock locks in
    (is_holder lock.instance_id (holder later lock.alert_id locks'), locks')

-- DELETE … WHERE alert_id = ? AND instance_id = ?
unfoldable pub release : ℕ → Bytes → Locks → Locks
release alert_id instance_id locks =
    filter (λ row. not (row.alert_id == alert_id && bytes_eq row.instance_id instance_id)) locks

-- DELETE … WHERE expires_at < ?
unfoldable pub cleanup : ℕ → Locks → Locks
cleanup now locks = filter (λ row. not (ltb row.expires_at now)) locks
