-- ===== src/Worker/Locking.antt =====
-- The lock of an alert around its check.
use warnly.Base.{
  if◌then◌else◌, ℕ, ◌+◌, ◌≤◌, ◌<◌, ◌≡◌, ◌≢◌, refl, sym, subst, ◌∙◌, ap, Bool, true, false, not,
  ◌&&◌, Option, none, some, List, [], ◌∷◌, Bool-cases, inl, inr, ◌⊎◌, ◌==◌, lt→ltb, Result, ok,
  and_then, pure, or_err, Bytes, bytes_eq, bytes_eq_iff, arith,
}
use warnly.Alert.{Alert, is_active, is_triggered, triggered_type, resolved_type}
use warnly.Locks.Table.{AlertLock, Locks, acquire, release}
use warnly.Locks.Rows.{row_of-cases, owed, left, row_of, HasKeys, acquire_rows, row_of-filter-none}
use warnly.Db.Tables.{exec, exec_now, read_clock, Issue, M, Db, no_rows}
use warnly.Db.Statements.{
  update_alert, list_issues, insert_lock, check_lock, acquire_lock, release_lock,
}
use warnly.Worker.Check.{
  World, WorkerError, W, lift_db, on_db, clock, trigger_alert, resolve_alert, settle, judge,
  answered, IssueMetrics, ask_metrics, check_locked, AlertWorker, lock_for, when_acquired,
  check_alert, deferring, MetricsCriteria,
}
use warnly.Worker.Frame.{
  Keeps, Keeps->>=, Keeps-if, Keeps-on_db, send_notifications-Keeps, locks-IsApart,
}

abbrev pub locks_of : World → Locks
locks_of w = w.db.locks

answered_locks : (o : Option (List IssueMetrics)) → Keeps locks_of (answered o)
answered_locks none w = refl
answered_locks (some ms) w = refl

module _ (wk : AlertWorker) where
  exec_locks :
      {A : Type 0} (m : M A)
      → ((db : Db) → (m db).1.locks ≡ db.locks)
      → Keeps locks_of (on_db (exec wk.env m))
  unfolding exec
  exec_locks m h =
      Keeps-on_db (λ db. db.locks) (exec wk.env m)
        (λ db. elim (Bool-cases (wk.env.fails db.statements)) [
          | inl fails ↦ rw fails
          | inr runs ↦ rw runs (h _)
        ])

  update_alert_locks : (a : Alert) → Keeps locks_of (on_db (update_alert wk.env a))
  unfolding update_alert
  update_alert_locks a = exec_locks _ (λ db. refl)

  trigger_alert_locks : (a : Alert) (now : ℕ) → Keeps locks_of (trigger_alert wk a now)
  unfolding trigger_alert
  trigger_alert_locks a now =
      Keeps->>= _ (on_db (update_alert wk.env _)) _ (update_alert_locks _)
        (λ _. send_notifications-Keeps wk _ locks-IsApart _ triggered_type)

  resolve_alert_locks : (a : Alert) (now : ℕ) → Keeps locks_of (resolve_alert wk a now)
  unfolding resolve_alert
  resolve_alert_locks a now =
      Keeps->>= _ (on_db (update_alert wk.env _)) _ (update_alert_locks _)
        (λ _. send_notifications-Keeps wk _ locks-IsApart _ resolved_type)

  settle_locks : (a : Alert) (now : ℕ) (over : Bool) → Keeps locks_of (settle wk a now over)
  unfolding settle
  settle_locks a now over =
      Keeps-if locks_of (over && is_active a.status) (trigger_alert wk a now) _
        (trigger_alert_locks a now)
        (Keeps-if locks_of (not over && is_triggered a.status) (resolve_alert wk a now) (pure tt)
          (resolve_alert_locks a now) (λ w. refl))

  ask_metrics_locks : (c : MetricsCriteria) → Keeps locks_of (ask_metrics wk c)
  unfolding ask_metrics
  ask_metrics_locks c = answered_locks (wk.metrics c)

  judge_locks :
      (a : Alert) (from now : ℕ) (is : List Issue) → Keeps locks_of (judge wk a from now is)
  unfolding judge
  judge_locks a from now [] =
      Keeps-if locks_of (is_triggered a.status) (resolve_alert wk a now) (pure tt)
        (resolve_alert_locks a now) (λ w. refl)
  judge_locks a from now (i ∷ is) =
      Keeps->>= _ (ask_metrics wk _) _ (ask_metrics_locks _) (λ ms. settle_locks a now _)

  check_locked_locks : (a : Alert) (now : ℕ) → Keeps locks_of (check_locked wk a now)
  unfolding check_locked
  check_locked_locks a now =
      Keeps->>= _ (on_db (list_issues wk.env _ _ _)) _
        (unfold list_issues in exec_locks _ (λ db. refl)) (λ is. judge_locks a _ now is)

  module _ (no_failure : (n : ℕ) → wk.env.fails n ≡ false) where
    on_release :
        (a : ℕ) (i : Bytes) (w : World)
        → locks_of (on_db (release_lock wk.env a i) w).1 ≡ release a i (locks_of w)
    unfolding on_db release_lock exec
    on_release a i w = rw (no_failure w.db.statements)

    acquire_lock_lem :
        (lock : AlertLock) (w : World)
        → let s = w.db.statements in
          on_db (acquire_lock wk.env lock) w
          ≡ lift_db
              (
                or_err
                    (acquire (wk.env.db_now s) (wk.env.db_now (s + 1)) lock w.db.locks).0
                    no_rows,
                record w.db {
                  locks = (acquire (wk.env.db_now s) (wk.env.db_now (s + 1)) lock w.db.locks).1;
                  statements = s + 1 + 1;
                },
              )
              w
    unfolding on_db acquire_lock insert_lock check_lock exec_now exec acquire
    acquire_lock_lem lock w = rw (no_failure w.db.statements, no_failure (w.db.statements + 1))

    after_clock : World → World
    after_clock w = record w { db = record w.db { readings = w.db.readings + 1 } }

    check_alert_lem :
        (alert : Alert) (w : World)
        → let s = w.db.statements in
          let c = wk.env.clock w.db.readings in
          let r =
            acquire (wk.env.db_now s) (wk.env.db_now (s + 1)) (lock_for wk alert c) w.db.locks in
          check_alert wk alert w
          ≡ and_then
              (lift_db
                (
                  or_err r.0 no_rows,
                  record w.db { locks = r.1; statements = s + 1 + 1; readings = w.db.readings + 1 },
                )
                (after_clock w))
              (when_acquired wk alert c)
    unfolding check_alert clock read_clock on_db after_clock
    check_alert_lem alert w =
        ap (λ r. and_then r (when_acquired wk alert (wk.env.clock w.db.readings)))
          (acquire_lock_lem (lock_for wk alert (wk.env.clock w.db.readings)) (after_clock w))

    when_acquired_locks :
        (alert : Alert) (now : ℕ) (w : World)
        → locks_of (when_acquired wk alert now true w).1
          ≡ release alert.id wk.instance_id (locks_of w)
    unfolding when_acquired deferring
    when_acquired_locks alert now w =
        on_release alert.id wk.instance_id _
        ∙ ap (release alert.id wk.instance_id) (check_locked_locks alert now w)

row_of-release_self :
    (a : ℕ) (i : Bytes) (locks : Locks) (row : AlertLock)
    → HasKeys locks
    → row_of a locks ≡ some row
    → row.instance_id ≡ i
    → row_of a (release a i locks) ≡ none
unfolding row_of release
row_of-release_self a i [] row keys held own = refl
row_of-release_self a i (r ∷ locks) row (k, keys) held own = ground (
  arith,
  row_of-release_self a i locks row keys,
  bytes_eq_iff r.instance_id i,
  row_of-filter-none (λ x. not (x.alert_id == a && bytes_eq x.instance_id i)) a locks,
)

row_of-release_ne :
    (a b : ℕ) (i : Bytes) (locks : Locks) → b ≢ a → row_of b (release a i locks) ≡ row_of b locks
unfolding row_of release
row_of-release_ne a b i [] ne = refl
row_of-release_ne a b i (r ∷ locks) ne = ground (arith, row_of-release_ne a b i locks)

owed_other :
    (now later : ℕ) (lock row : AlertLock) (before : Option AlertLock)
    → before ≡ some row
    → now ≤ later
    → later < row.expires_at
    → row.instance_id ≢ lock.instance_id
    → owed now later lock before ≡ some false
owed_other now later lock row before held order live ne =
    rw held (ground (arith, bytes_eq_iff row.instance_id lock.instance_id))

left_live :
    (now : ℕ) (lock row : AlertLock) (before : Option AlertLock)
    → before ≡ some row
    → now < row.expires_at
    → some (left now lock before) ≡ some row
left_live now lock row before held live = rw held (ground arith)

abbrev Free : ℕ → Option AlertLock → Type 0
Free now before =
    (before ≡ none) ⊎ ((row : AlertLock) × (before ≡ some row) × (row.expires_at < now))

owed-Free :
    (now later : ℕ) (lock : AlertLock) (before : Option AlertLock)
    → Free now before
    → owed now later lock before ≡ some true
owed-Free now later lock before (inl free) = rw free refl
owed-Free now later lock before (inr (row, held, over)) =
    rw (held, lt→ltb row.expires_at now over) refl

left-Free :
    (now : ℕ) (lock : AlertLock) (before : Option AlertLock)
    → Free now before
    → some (left now lock before) ≡ some lock
left-Free now lock before (inl free) = rw free refl
left-Free now lock before (inr (row, held, over)) = rw (held, lt→ltb row.expires_at now over) refl

acquired_some :
    {A : Type 0} (o : Option Bool) (b : Bool) (db : Db) (w : World) (k : Bool → W A)
    → o ≡ some b
    → and_then (lift_db (or_err o no_rows, db) w) k ≡ k b (record w { db = db })
acquired_some o b db w k e = rw e

module _ (wk : AlertWorker) (no_failure : (n : ℕ) → wk.env.fails n ≡ false) (alert : Alert)
    (w : World) where
  abbrev s : ℕ
  s = w.db.statements

  abbrev lock : AlertLock
  lock = lock_for wk alert (wk.env.clock w.db.readings)

  abbrev before : Option AlertLock
  before = row_of alert.id (locks_of w)

  abbrev now : ℕ
  now = wk.env.clock w.db.readings

  abbrev answer : Option Bool × Locks
  answer = acquire (wk.env.db_now s) (wk.env.db_now (s + 1)) lock (locks_of w)

  abbrev held_world : World
  held_world = record w {
    db = record w.db { locks = answer.1; statements = s + 1 + 1; readings = w.db.readings + 1 };
  }

  check_alert_answered :
      (b : Bool)
      → answer.0 ≡ some b
      → check_alert wk alert w ≡ when_acquired wk alert now b held_world
  unfolding after_clock
  check_alert_answered b e =
      check_alert_lem wk no_failure alert w
      ∙ acquired_some answer.0 b
          (record w.db { locks = answer.1; statements = s + 1 + 1; readings = w.db.readings + 1 })
          (record w { db = record w.db { readings = w.db.readings + 1 } })
          (when_acquired wk alert now) e

  requested :
      HasKeys (locks_of w)
      → wk.env.db_now (s + 1) < lock.expires_at
      → (answer.0 ≡ owed (wk.env.db_now s) (wk.env.db_now (s + 1)) lock before)
        × (row_of alert.id answer.1 ≡ some (left (wk.env.db_now s) lock before))
        × ((a : ℕ) → a ≢ alert.id → row_of a answer.1 ≡ row_of a (locks_of w))
        × HasKeys answer.1
  unfolding lock_for
  requested keys lasts =
      acquire_rows (wk.env.db_now s) (wk.env.db_now (s + 1)) lock (locks_of w) keys lasts

  own_lock : lock.instance_id ≡ wk.instance_id
  unfolding lock_for
  own_lock = refl

  turned_away : when_acquired wk alert now false held_world ≡ (ok tt, held_world)
  unfolding when_acquired
  turned_away = refl

  decide_eq : (a b : ℕ) → (a ≡ b) ⊎ (a ≢ b)
  decide_eq a b = elim (Bool-cases (a == b)) [
    | inl e ↦ inl (ground (arith, e))
    | inr e ↦ inr (λ q. ground (arith, e, q))
  ]

  -- Where no statement fails, the table has one row for each alert, the lock asked for outlasts
  -- the request, and another instance's lock lasts beyond it, the check ends without an error,
  -- touches neither alerts nor notifications, sends nothing, and leaves every lock as it was.
  pub check_alert_busy :
      (row : AlertLock)
      → HasKeys (locks_of w)
      → wk.env.db_now (s + 1) < lock.expires_at
      → before ≡ some row
      → row.instance_id ≢ wk.instance_id
      → wk.env.db_now s ≤ wk.env.db_now (s + 1)
      → wk.env.db_now (s + 1) < row.expires_at
      → let (r, w') = check_alert wk alert w in
        (r ≡ ok tt)
        × (w'.db.alerts ≡ w.db.alerts)
        × (w'.db.notifications ≡ w.db.notifications)
        × (w'.outbox ≡ w.outbox)
        × ((a : ℕ) → row_of a (locks_of w') ≡ row_of a (locks_of w))
  check_alert_busy row keys lasts held other order live =
      let (e, self, others, keys') = requested keys lasts in
      let refused = check_alert_answered false (
        e
        ∙ owed_other (wk.env.db_now s) (wk.env.db_now (s + 1)) lock row before held order live
            (λ q. other (q ∙ own_lock))) in
      let same = self ∙ left_live (wk.env.db_now s) lock row before held (omega arith) in
      subst
        (λ r.
          (r.0 ≡ ok tt)
          × (r.1.db.alerts ≡ w.db.alerts)
          × (r.1.db.notifications ≡ w.db.notifications)
          × (r.1.outbox ≡ w.outbox)
          × ((a : ℕ) → row_of a (locks_of r.1) ≡ row_of a (locks_of w)))
        (sym (refused ∙ turned_away))
        (
          refl,
          refl,
          refl,
          refl,
          λ a. elim (decide_eq a alert.id) [
            | inl eq ↦ rw eq (same ∙ sym held)
            | inr ne ↦ others a ne
          ],
        )

  check_alert_rows :
      HasKeys (locks_of w)
      → wk.env.db_now (s + 1) < lock.expires_at
      → Free (wk.env.db_now s) before
      → let w' = (check_alert wk alert w).1 in
        (row_of alert.id (locks_of w') ≡ none)
        × ((a : ℕ) → a ≢ alert.id → row_of a (locks_of w') ≡ row_of a (locks_of w))
  check_alert_rows keys lasts free =
      let (e, self, others, keys') = requested keys lasts in
      let granted =
        check_alert_answered true
          (e ∙ owed-Free (wk.env.db_now s) (wk.env.db_now (s + 1)) lock before free) in
      let mine = self ∙ left-Free (wk.env.db_now s) lock before free in
      let after =
        ap (λ (r : Result WorkerError (Unit {0}) × World). locks_of r.1) granted
        ∙ when_acquired_locks wk no_failure alert now held_world in
      (
        ap (row_of alert.id) after
            ∙ row_of-release_self alert.id wk.instance_id answer.1 lock keys' mine own_lock,
        λ a ne.
            ap (row_of a) after
            ∙ row_of-release_ne alert.id a wk.instance_id answer.1 ne
            ∙ others a ne,
      )

  -- Where no statement fails, the table has one row for each alert, the lock asked for outlasts
  -- the request, and the alert's lock is free or has expired, the check, however it ends, leaves
  -- the alert unlocked and the locks of other alerts as they were.
  pub check_alert_unlocks :
      (a : ℕ)
      → HasKeys (locks_of w)
      → wk.env.db_now (s + 1) < lock.expires_at
      → Free (wk.env.db_now s) before
      → row_of a (locks_of (check_alert wk alert w).1)
        ≡ (if a == alert.id then none else row_of a (locks_of w))
  check_alert_unlocks a keys lasts free =
      let (self, others) = check_alert_rows keys lasts free in
      row_of-cases a alert.id _ _ _ (λ e. rw e self) (others a)
