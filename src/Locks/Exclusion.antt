-- ===== src/Locks/Exclusion.antt =====
-- While one instance's lock lasts, no other instance gets it, whatever the others do.
use warnly.Base.{
  ℕ, ◌≤◌, ◌<◌, ◌≡◌, ◌≢◌, ◌∙◌, sym, false, not, ◌&&◌, some, List, [], ◌∷◌, ◌==◌, ltb, Bytes,
  bytes_eq, bytes_eq_sound, All, arith, Bool-cases, inl, inr,
}
use warnly.Locks.Table.{AlertLock, Locks, acquire, release, cleanup}
use warnly.Locks.Rows.{
  row_of, HasKeys, row_of-filter, HasKeys-filter, HasKeys-upsert, upsert_keeps, acquire_rows,
}

bytes_ne : (s t : Bytes) → s ≢ t → bytes_eq s t ≡ false
bytes_ne s t ne = elim (Bool-cases (bytes_eq s t)) [
  | inl equal ↦ absurd (ne (bytes_eq_sound s t equal))
  | inr differs ↦ differs
]

-- One statement, or one call of `AcquireAlertLock` with the times of its two, by some instance.
pub data Op : Type 0 where
  acquire_op : ℕ → ℕ → AlertLock → Op
  release_op : ℕ → Bytes → Op
  cleanup_op : ℕ → Op

unfoldable pub after : Op → Locks → Locks
unfolding acquire
after (acquire_op now later lock) locks = (acquire now later lock locks).1
after (release_op a instance_id) locks = release a instance_id locks
after (cleanup_op now) locks = cleanup now locks

unfoldable pub after_all : List Op → Locks → Locks
after_all [] locks = locks
after_all (op ∷ ops) locks = after_all ops (after op locks)

-- What instances other than the owner may do before the time `e`: ask for any lock, release locks
-- of their own, and remove what has expired by their clocks.
abbrev pub IsForeign : Bytes → ℕ → Op → Type 0
IsForeign owner e (acquire_op now later lock) = now ≤ e
IsForeign owner e (release_op a instance_id) = instance_id ≢ owner
IsForeign owner e (cleanup_op now) = now ≤ e

release_keeps :
    (a b : ℕ) (instance_id : Bytes) (locks : Locks) (row : AlertLock)
    → row_of a locks ≡ some row
    → instance_id ≢ row.instance_id
    → row_of a (release b instance_id locks) ≡ some row
unfolding release
release_keeps a b instance_id locks row held other =
    row_of-filter (λ r. not (r.alert_id == b && bytes_eq r.instance_id instance_id)) a locks row
      held
      (elim (Bool-cases (bytes_eq row.instance_id instance_id)) [
        | inl equal ↦ absurd (other (sym (bytes_eq_sound _ _ equal)))
        | inr differs ↦ ground arith
      ])

after_keeps :
    (a : ℕ) (op : Op) (locks : Locks) (row : AlertLock)
    → IsForeign row.instance_id row.expires_at op
    → row_of a locks ≡ some row
    → row_of a (after op locks) ≡ some row
unfolding after
after_keeps a (acquire_op now later lock) locks row foreign held =
    upsert_keeps now a lock locks row foreign held
after_keeps a (release_op b instance_id) locks row foreign held =
    release_keeps a b instance_id locks row held foreign
after_keeps a (cleanup_op now) locks row foreign held =
    unfold cleanup in
    row_of-filter (λ r. not (ltb r.expires_at now)) a locks row held (ground arith)

pub after-HasKeys : (op : Op) (locks : Locks) → HasKeys locks → HasKeys (after op locks)
unfolding after
after-HasKeys (acquire_op now later lock) locks h = HasKeys-upsert now lock locks h
after-HasKeys (release_op a instance_id) locks h = unfold release in HasKeys-filter _ locks h
after-HasKeys (cleanup_op now) locks h = unfold cleanup in HasKeys-filter _ locks h

after_all_keeps :
    (a : ℕ) (ops : List Op) (locks : Locks) (row : AlertLock)
    → All (IsForeign row.instance_id row.expires_at) ops
    → HasKeys locks
    → row_of a locks ≡ some row
    → HasKeys (after_all ops locks) × (row_of a (after_all ops locks) ≡ some row)
unfolding after_all
after_all_keeps a [] locks row h keys held = (keys, held)
after_all_keeps a (op ∷ ops) locks row (h, hs) keys held =
    after_all_keeps a ops (after op locks) row hs (after-HasKeys op locks keys)
      (after_keeps a op locks row h held)

-- Mutual exclusion. An instance holds the lock of an alert. Any number of other instances ask for
-- locks, release their own and clean up, in any order, at times up to the lock's end. Then another
-- instance that asks for the lock, both statements of it before the lock's end, is told no, and
-- the owner's row is still there.
pub acquire_excluded :
    (ops : List Op) (locks : Locks) (row lock : AlertLock) (now later : ℕ)
    → HasKeys locks
    → row_of lock.alert_id locks ≡ some row
    → All (IsForeign row.instance_id row.expires_at) ops
    → lock.instance_id ≢ row.instance_id
    → now ≤ later
    → later < row.expires_at
    → later < lock.expires_at
    → let (answer, locks') = acquire now later lock (after_all ops locks) in
      (answer ≡ some false) × (row_of lock.alert_id locks' ≡ some row)
acquire_excluded ops locks row lock now later keys held foreign other order live lasts =
    let (keys', held') = after_all_keeps lock.alert_id ops locks row foreign keys held in
    let (answer, rest, _, _) = acquire_rows now later lock (after_all ops locks) keys' lasts in
    (
      answer
          ∙ rw held'
              (ground (arith, bytes_ne row.instance_id lock.instance_id (λ e. other (sym e)))),
      rest ∙ rw held' (ground arith),
    )
