-- ===== src/Locks/Refinement.antt =====
-- The lock table of internal/mysql/notification.go as a map from alerts to locks: what its
-- statements mean where a row is all that counts, and not the order of the rows.
use warnly.Base.{
  ℕ, ◌≡◌, refl, ap, ap₂, ◌∙◌, fun_ext, Bool, true, not, ◌&&◌, Option, none, some, List, [], ◌∷◌,
  if◌then◌else◌, ◌==◌, ltb, Bytes, bytes_eq, inl, inr, Bool-cases, Option-cases, arith,
}
use warnly.Locks.Table.{AlertLock, Locks, is_holder, acquire, upsert, release, cleanup}
use warnly.Locks.Rows.{
  row_of, HasKeys, row_of-id, row_of-upsert_self, row_of-upsert_ne, row_of-filter-none,
  on_duplicate_lem, holder-row_of, HasKeys-upsert,
}
use warnly.Locks.Exclusion.{Op, acquire_op, release_op, cleanup_op, after, after_all, after-HasKeys}

abbrev pub LockMap : Type 0
LockMap = ℕ → Option AlertLock

abbrev pub locks_of : Locks → LockMap
unfolding row_of
locks_of locks = λ a. row_of a locks

-- An acquisition leaves the new lock for a free or an expired one, and else the old.
abbrev pub taken : ℕ → AlertLock → Option AlertLock → Option AlertLock
taken now lock none = some lock
taken now lock (some held) = if ltb held.expires_at now then some lock else some held

-- A release frees the instance's own lock.
abbrev pub freed : Bytes → Option AlertLock → Option AlertLock
freed instance_id none = none
freed instance_id (some held) = if bytes_eq held.instance_id instance_id then none else some held

-- A cleanup removes an expired lock.
abbrev pub unexpired : ℕ → Option AlertLock → Option AlertLock
unexpired now none = none
unexpired now (some held) = if ltb held.expires_at now then none else some held

-- What an operation does to the map.
abbrev pub step : Op → LockMap → LockMap
step (acquire_op now later lock) m = λ a. if a == lock.alert_id then taken now lock (m a) else m a
step (release_op alert_id instance_id) m =
    λ a. if a == alert_id then freed instance_id (m a) else m a
step (cleanup_op now) m = λ a. unexpired now (m a)

abbrev pub steps : List Op → LockMap → LockMap
steps [] m = m
steps (op ∷ ops) m = steps ops (step op m)

-- The answer to an acquisition, of the lock that is there after it: whether it is the asking
-- instance's, and an error where it has run out. The other operations answer nothing.
abbrev pub told : ℕ → AlertLock → Option AlertLock → Option Bool
told later lock none = none
told later lock (some held) =
    if ltb later held.expires_at then some (bytes_eq held.instance_id lock.instance_id) else none

abbrev pub reply : Op → LockMap → Option Bool
reply (acquire_op now later lock) m =
    told later lock (step (acquire_op now later lock) m lock.alert_id)
reply (release_op alert_id instance_id) m = none
reply (cleanup_op now) m = none

abbrev pub replies : List Op → LockMap → List (Option Bool)
replies [] m = []
replies (op ∷ ops) m = reply op m ∷ replies ops (step op m)

-- The same of the table.
abbrev pub answer : Op → Locks → Option Bool
unfolding acquire
answer (acquire_op now later lock) locks = (acquire now later lock locks).0
answer (release_op alert_id instance_id) locks = none
answer (cleanup_op now) locks = none

abbrev pub answers : List Op → Locks → List (Option Bool)
unfolding answer after
answers [] locks = []
answers (op ∷ ops) locks = answer op locks ∷ answers ops (after op locks)

same_alert : (a b : ℕ) → (a == b) ≡ true → a ≡ b
same_alert a b h = ground (arith, h)

taken_lem :
    (now : ℕ) (lock : AlertLock) (locks : Locks)
    → row_of lock.alert_id (upsert now lock locks) ≡ taken now lock (row_of lock.alert_id locks)
taken_lem now lock locks =
    let self = row_of-upsert_self now lock locks in
    elim (Option-cases (row_of lock.alert_id locks)) [
      | inl free ↦ ground (arith, self, free)
      | inr (row, held) ↦ ground (
        arith,
        self,
        held,
        on_duplicate_lem now lock row (row_of-id lock.alert_id locks row held),
      )
    ]

row_of-upsert :
    (now : ℕ) (lock : AlertLock) (locks : Locks) (a : ℕ)
    → row_of a (upsert now lock locks)
      ≡ (if a == lock.alert_id then taken now lock (row_of a locks) else row_of a locks)
row_of-upsert now lock locks a = elim (Bool-cases (a == lock.alert_id)) [
  | inl same ↦ rw (same, same_alert a lock.alert_id same) (taken_lem now lock locks)
  | inr other ↦ rw (other, row_of-upsert_ne now a lock locks (λ e. ground (arith, other, e))) refl
]

row_of-release :
    (b : ℕ) (instance_id : Bytes) (locks : Locks) (a : ℕ)
    → HasKeys locks
    → row_of a (release b instance_id locks)
      ≡ (if a == b then freed instance_id (row_of a locks) else row_of a locks)
unfolding row_of release
row_of-release b instance_id [] a h = ground arith
row_of-release b instance_id (row ∷ locks) a (k, h) = ground (
  arith,
  row_of-release b instance_id locks a h,
  k,
  row_of-filter-none
      (λ (r : AlertLock). not (r.alert_id == b && bytes_eq r.instance_id instance_id)) row.alert_id
      locks,
)

row_of-cleanup :
    (now : ℕ) (locks : Locks) (a : ℕ)
    → HasKeys locks
    → row_of a (cleanup now locks) ≡ unexpired now (row_of a locks)
unfolding row_of cleanup
row_of-cleanup now [] a h = refl
row_of-cleanup now (row ∷ locks) a (k, h) = ground (
  arith,
  row_of-cleanup now locks a h,
  k,
  row_of-filter-none (λ (r : AlertLock). not (ltb r.expires_at now)) row.alert_id locks,
)

after-step :
    (op : Op) (locks : Locks) → HasKeys locks → locks_of (after op locks) ≡ step op (locks_of locks)
unfolding after locks_of acquire
after-step (acquire_op now later lock) locks h = fun_ext (row_of-upsert now lock locks)
after-step (release_op b instance_id) locks h =
    fun_ext (λ a. row_of-release b instance_id locks a h)
after-step (cleanup_op now) locks h = fun_ext (λ a. row_of-cleanup now locks a h)

told_lem :
    (later : ℕ) (lock : AlertLock) (held : Option AlertLock)
    → is_holder lock.instance_id (elim held [
      | none ↦ none
      | some row ↦ if ltb later row.expires_at then some row.instance_id else none
    ])
      ≡ told later lock held
told_lem later lock none = refl
told_lem later lock (some row) = ground arith

answer-reply :
    (op : Op) (locks : Locks) → HasKeys locks → answer op locks ≡ reply op (locks_of locks)
unfolding answer locks_of acquire
answer-reply (acquire_op now later lock) locks h =
    ap (is_holder lock.instance_id)
      (holder-row_of later lock.alert_id (upsert now lock locks) (HasKeys-upsert now lock locks h))
    ∙ told_lem later lock (row_of lock.alert_id (upsert now lock locks))
    ∙ ap (told later lock) (row_of-upsert now lock locks lock.alert_id)
answer-reply (release_op b instance_id) locks h = refl
answer-reply (cleanup_op now) locks h = refl

-- Where the primary key holds, any sequence of acquisitions, releases and cleanups leaves the table
-- with the rows that the same sequence leaves in the map from alerts to locks, and every
-- acquisition is answered as the map says.
pub after_all-steps :
    (ops : List Op) (locks : Locks)
    → HasKeys locks
    → (locks_of (after_all ops locks) ≡ steps ops (locks_of locks))
      × (answers ops locks ≡ replies ops (locks_of locks))
unfolding after_all answers
after_all-steps [] locks h = (refl, refl)
after_all-steps (op ∷ ops) locks h =
    let (rows, told_all) = after_all-steps ops (after op locks) (after-HasKeys op locks h) in
    (
      rows ∙ ap (steps ops) (after-step op locks h),
      ap₂ (λ t ts. t ∷ ts) (answer-reply op locks h)
          (told_all ∙ ap (replies ops) (after-step op locks h)),
    )
