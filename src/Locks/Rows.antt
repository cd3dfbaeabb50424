-- ===== src/Locks/Rows.antt =====
-- The rows of the lock table after each statement of internal/mysql/notification.go, and what
-- `AcquireAlertLock` answers.
use warnly.Base.{
  Bool-cases, ℕ, ◌≤◌, ◌<◌, ◌≡◌, ◌≢◌, refl, Bool, true, Option, none, some, [], ◌∷◌, if◌then◌else◌,
  ◌==◌, ltb, bytes_eq, bytes_eq_refl, filter, arith, Option-cases, inl, inr,
}
use warnly.Locks.Table.{AlertLock, Locks, on_duplicate, upsert, holder, acquire}

-- The row of an alert: the primary key allows one.
unfoldable pub row_of : ℕ → Locks → Option AlertLock
row_of alert_id [] = none
row_of alert_id (row ∷ locks) = if row.alert_id == alert_id then some row else row_of alert_id locks

-- The primary key.
abbrev pub HasKeys : Locks → Type 0
HasKeys [] = Unit
HasKeys (row ∷ locks) = (row_of row.alert_id locks ≡ none) × HasKeys locks

pub row_of-upsert_self :
    (now : ℕ) (new : AlertLock) (locks : Locks)
    → row_of new.alert_id (upsert now new locks)
      ≡ some (elim (row_of new.alert_id locks) [ none ↦ new | some row ↦ on_duplicate now new row ])
unfolding row_of upsert on_duplicate
row_of-upsert_self now new [] = ground arith
row_of-upsert_self now new (row ∷ locks) = ground (arith, row_of-upsert_self now new locks)

pub row_of-upsert_ne :
    (now a : ℕ) (new : AlertLock) (locks : Locks)
    → a ≢ new.alert_id
    → row_of a (upsert now new locks) ≡ row_of a locks
unfolding row_of upsert on_duplicate
row_of-upsert_ne now a new [] h = ground arith
row_of-upsert_ne now a new (row ∷ locks) h = ground (arith, row_of-upsert_ne now a new locks)

pub row_of-filter-none :
    (p : AlertLock → Bool) (a : ℕ) (locks : Locks)
    → row_of a locks ≡ none
    → row_of a (filter p locks) ≡ none
unfolding row_of
row_of-filter-none p a [] h = refl
row_of-filter-none p a (row ∷ locks) h = ground (arith, row_of-filter-none p a locks)

pub row_of-filter :
    (p : AlertLock → Bool) (a : ℕ) (locks : Locks) (held : AlertLock)
    → row_of a locks ≡ some held
    → p held ≡ true
    → row_of a (filter p locks) ≡ some held
unfolding row_of
row_of-filter p a [] held h k = cc
row_of-filter p a (row ∷ locks) held h k = ground (arith, row_of-filter p a locks held)

pub HasKeys-filter :
    (p : AlertLock → Bool) (locks : Locks) → HasKeys locks → HasKeys (filter p locks)
HasKeys-filter p [] h = tt
HasKeys-filter p (row ∷ locks) (k, h) =
    ground (arith, row_of-filter-none p row.alert_id locks, HasKeys-filter p locks)

pub HasKeys-upsert :
    (now : ℕ) (new : AlertLock) (locks : Locks) → HasKeys locks → HasKeys (upsert now new locks)
unfolding upsert on_duplicate
HasKeys-upsert now new [] h = (unfold row_of in refl, tt)
HasKeys-upsert now new (row ∷ locks) (k, h) =
    ground (arith, row_of-upsert_ne now row.alert_id new locks, HasKeys-upsert now new locks)

pub holder-row_of :
    (now a : ℕ) (locks : Locks)
    → HasKeys locks
    → holder now a locks ≡ elim (row_of a locks) [
      | none ↦ none
      | some row ↦ if ltb now row.expires_at then some row.instance_id else none
    ]
unfolding row_of holder
holder-row_of now a [] h = refl
holder-row_of now a (row ∷ locks) (k, h) = ground (arith, holder-row_of now a locks)

-- The answer that `AcquireAlertLock` owes: true for a free or an expired lock, whether the holder
-- asks for a live one, and an error where the lock runs out between the two statements.
abbrev pub owed : ℕ → ℕ → AlertLock → Option AlertLock → Option Bool
owed now later lock none = some true
owed now later lock (some row) =
    if ltb row.expires_at now
    then some true
    else if ltb later row.expires_at
    then some (bytes_eq row.instance_id lock.instance_id)
    else none

-- The row that it leaves: the new one for a free or an expired lock, else the old.
abbrev pub left : ℕ → AlertLock → Option AlertLock → AlertLock
left now lock none = lock
left now lock (some row) = if ltb row.expires_at now then lock else row

pub row_of-id :
    (a : ℕ) (locks : Locks) (row : AlertLock) → row_of a locks ≡ some row → row.alert_id ≡ a
unfolding row_of
row_of-id a [] row h = cc
row_of-id a (r ∷ locks) row h = ground (arith, row_of-id a locks row)

pub on_duplicate_lem :
    (now : ℕ) (new row : AlertLock)
    → row.alert_id ≡ new.alert_id
    → on_duplicate now new row ≡ (if ltb row.expires_at now then new else row)
unfolding on_duplicate
on_duplicate_lem now new row h = ground arith

pub acquire_rows :
    (now later : ℕ) (lock : AlertLock) (locks : Locks)
    → HasKeys locks
    → later < lock.expires_at
    → let (answer, locks') = acquire now later lock locks in
      (answer ≡ owed now later lock (row_of lock.alert_id locks))
      × (row_of lock.alert_id locks' ≡ some (left now lock (row_of lock.alert_id locks)))
      × ((a : ℕ) → a ≢ lock.alert_id → row_of a locks' ≡ row_of a locks)
      × HasKeys locks'
unfolding acquire
acquire_rows now later lock locks keys lasts =
    let keys' = HasKeys-upsert now lock locks keys in
    let self = row_of-upsert_self now lock locks in
    let found = holder-row_of later lock.alert_id (upsert now lock locks) keys' in
    elim (Option-cases (row_of lock.alert_id locks)) [
      | inl free ↦ (
        ground (arith, found, self, free, bytes_eq_refl lock.instance_id),
        ground (arith, self, free),
        λ a ne. row_of-upsert_ne now a lock locks ne,
        keys',
      )
      | inr (row, held) ↦ (
        ground (
          arith,
          found,
          self,
          on_duplicate_lem now lock row (row_of-id lock.alert_id locks row held),
          bytes_eq_refl lock.instance_id,
        ),
        ground
            (arith, self, on_duplicate_lem now lock row (row_of-id lock.alert_id locks row held)),
        λ a ne. row_of-upsert_ne now a lock locks ne,
        keys',
      )
    ]

pub row_of-cases :
    (a id : ℕ) (at_a at_id elsewhere : Option AlertLock)
    → (a ≡ id → at_a ≡ at_id)
    → (a ≢ id → at_a ≡ elsewhere)
    → at_a ≡ (if a == id then at_id else elsewhere)
row_of-cases a id at_a at_id elsewhere h k = elim (Bool-cases (a == id)) [
  | inl e ↦ rw e (h (ground (arith, e)))
  | inr e ↦ rw e (k (λ q. ground (arith, e, q)))
]

-- Requesting a lock that would last beyond the second statement, at a table with one row for each
-- alert: the answer and the row that is left are as owed, and the rows of other alerts stay.
pub acquire_lem :
    (now later a : ℕ) (lock : AlertLock) (locks : Locks)
    → HasKeys locks
    → later < lock.expires_at
    → let (answer, locks') = acquire now later lock locks in
      (answer ≡ owed now later lock (row_of lock.alert_id locks))
      × (row_of a locks' ≡ (
          if a == lock.alert_id
          then some (left now lock (row_of lock.alert_id locks))
          else row_of a locks))
acquire_lem now later a lock locks keys lasts =
    let (answer, self, others, keys') = acquire_rows now later lock locks keys lasts in
    (answer, row_of-cases a lock.alert_id _ _ _ (λ e. rw e self) (others a))

pub upsert_keeps :
    (now a : ℕ) (new : AlertLock) (locks : Locks) (row : AlertLock)
    → now ≤ row.expires_at
    → row_of a locks ≡ some row
    → row_of a (upsert now new locks) ≡ some row
unfolding row_of upsert on_duplicate
upsert_keeps now a new [] row lasts held = cc
upsert_keeps now a new (r ∷ locks) row lasts held =
    ground (arith, upsert_keeps now a new locks row lasts)
