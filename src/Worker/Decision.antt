-- ===== src/Worker/Decision.antt =====
-- When a check changes the status of an alert.
use warnly.Base.{
  ℕ, ◌+◌, ◌-◌, ◌==◌, ◌≡◌, refl, subst, ◌∙◌, Bool, true, false, ◌⊎◌, Bool-cases, Option-cases, inl,
  inr, some, List, [], ◌∷◌, if◌then◌else◌, Result, ok, err, pure, and_then,
}
use warnly.Alert.{Alert, is_active, is_triggered, timeframe_duration, triggered_type, resolved_type}
use warnly.Db.Tables.{exec, Db, Issue, bad_rows_affected}
use warnly.Db.Statements.{update_alert, update_rows, updated, affected, list_issues}
use warnly.Worker.Check.{
  World, WorkerError, W, lift_db, on_db, exceeds, IssueMetrics, AlertWorker, send_notifications,
  as_triggered, as_resolved, trigger_alert, resolve_alert, settle, ask_metrics, judge, check_locked,
}
use warnly.Worker.Frame.{and_then-Keeps, Keeps-on_db, send_notifications-Keeps, alerts-IsApart}
use warnly.Worker.Verdict.{
  IsOver, IsUnder, triggered_row, resolved_row, set_rows, exceeds-IsOver, exceeds-IsUnder,
  is_active-active, is_active-ne, is_triggered-triggered, is_triggered-ne, criteria_of, Asked,
  Verdict,
}

abbrev pub alerts_of : World → List Alert
alerts_of w = w.db.alerts

lifted :
    (b : Bool) (db : Db) (w : World)
    → alerts_of (lift_db {A = Unit {0}} (if b then ok tt else err bad_rows_affected, db) w).1
      ≡ db.alerts
lifted true db w = refl
lifted false db w = refl

if_either :
    (b : Bool) (m : W (Unit {0})) (w : World) (P : List Alert → Type 0)
    → (b ≡ true → P (alerts_of (m w).1))
    → (b ≡ false → P (alerts_of w))
    → P (alerts_of ((if b then m else pure tt) w).1)
if_either true m w P h k = h refl
if_either false m w P h k = k refl

module _ (wk : AlertWorker) where
  update_alert_alerts :
      (a : Alert) (w : World)
      → ((alerts_of (on_db (update_alert wk.env a) w).1 ≡ alerts_of w)
          × (wk.env.fails w.db.statements ≡ true))
        ⊎ (alerts_of (on_db (update_alert wk.env a) w).1 ≡ update_rows a (alerts_of w))
  unfolding on_db update_alert exec affected update_rows
  update_alert_alerts a w = elim (Bool-cases (wk.env.fails w.db.statements)) [
    | inl fails ↦ inl (rw (fails, on_db, update_alert, exec) refl, fails)
    | inr runs ↦ inr (
        rw (runs, on_db, update_alert, exec)
          (lifted (affected wk.env a w.db.alerts == 1)
            (record w.db { alerts = update_rows a w.db.alerts; statements = w.db.statements + 1 })
            w))
  ]

  update_rows-triggered :
      (alert : Alert) (now : ℕ) (xs : List Alert)
      → update_rows (as_triggered wk alert now) xs ≡ set_rows alert (triggered_row alert now) xs
  unfolding update_rows updated as_triggered
  update_rows-triggered alert now xs = refl

  update_rows-resolved :
      (alert : Alert) (now : ℕ) (xs : List Alert)
      → update_rows (as_resolved wk alert now) xs ≡ set_rows alert (resolved_row alert now) xs
  unfolding update_rows updated as_resolved
  update_rows-resolved alert now xs = refl

  trigger_alert_alerts :
      (a : Alert) (now : ℕ) (w : World)
      → alerts_of (trigger_alert wk a now w).1
        ≡ alerts_of (on_db (update_alert wk.env (as_triggered wk a now)) w).1
  unfolding trigger_alert
  trigger_alert_alerts a now w =
      and_then-Keeps alerts_of (on_db (update_alert wk.env (as_triggered wk a now)) w)
        (λ _. send_notifications wk (as_triggered wk a now) triggered_type)
        (λ _. send_notifications-Keeps wk _ alerts-IsApart _ triggered_type)

  resolve_alert_alerts :
      (a : Alert) (now : ℕ) (w : World)
      → alerts_of (resolve_alert wk a now w).1
        ≡ alerts_of (on_db (update_alert wk.env (as_resolved wk a now)) w).1
  unfolding resolve_alert
  resolve_alert_alerts a now w =
      and_then-Keeps alerts_of (on_db (update_alert wk.env (as_resolved wk a now)) w)
        (λ _. send_notifications wk (as_resolved wk a now) resolved_type)
        (λ _. send_notifications-Keeps wk _ alerts-IsApart _ resolved_type)

  module _ (alert : Alert) (now : ℕ) (listed : Result WorkerError (List Issue)) where
    triggers :
        (w : World)
        → Asked wk (IsOver alert) alert now listed
        → is_active alert.status ≡ true
        → Verdict wk alert now listed w.db.statements
            (alerts_of w)
            (alerts_of (trigger_alert wk alert now w).1)
    triggers w m s = elim (update_alert_alerts (as_triggered wk alert now) w) [
      | inl (same, failed) ↦ inl (trigger_alert_alerts alert now w ∙ same, inr (inr (inl failed)))
      | inr set ↦ inr (
          inl (
            m,
            is_active-active alert.status s,
            trigger_alert_alerts alert now w ∙ set ∙ update_rows-triggered alert now (alerts_of w),
          ))
    ]

    resolves :
        (w : World)
        → (listed ≡ ok []) ⊎ Asked wk (IsUnder alert) alert now listed
        → is_triggered alert.status ≡ true
        → Verdict wk alert now listed w.db.statements
            (alerts_of w)
            (alerts_of (resolve_alert wk alert now w).1)
    resolves w m s = elim (update_alert_alerts (as_resolved wk alert now) w) [
      | inl (same, failed) ↦ inl (resolve_alert_alerts alert now w ∙ same, inr (inr (inl failed)))
      | inr set ↦ inr (
          inr (
            m,
            is_triggered-triggered alert.status s,
            resolve_alert_alerts alert now w ∙ set ∙ update_rows-resolved alert now (alerts_of w),
          ))
    ]

    settle-Verdict :
        (w : World) (over : Bool) (is : List Issue) (ms : List IssueMetrics)
        → listed ≡ ok is
        → wk.metrics (criteria_of alert now is) ≡ some ms
        → exceeds alert ms ≡ over
        → Verdict wk alert now listed w.db.statements
            (alerts_of w)
            (alerts_of (settle wk alert now over w).1)
    unfolding settle
    settle-Verdict w true is ms e got over =
        if_either (is_active alert.status) (trigger_alert wk alert now) w
          (Verdict wk alert now listed w.db.statements (alerts_of w))
          (triggers w (is, ms, e, got, exceeds-IsOver alert ms over))
          (λ calm. inl (
            refl,
            inr (
                inr (
                  inr (
                    inl (
                      (is, ms, e, got, exceeds-IsOver alert ms over),
                      is_active-ne alert.status calm,
                    )))),
          ))
    settle-Verdict w false is ms e got under =
        if_either (is_triggered alert.status) (resolve_alert wk alert now) w
          (Verdict wk alert now listed w.db.statements (alerts_of w))
          (resolves w (inr (is, ms, e, got, exceeds-IsUnder alert ms under)))
          (λ calm. inl (
            refl,
            inr (
                inr (
                  inr (
                    inr (
                      inr (is, ms, e, got, exceeds-IsUnder alert ms under),
                      is_triggered-ne alert.status calm,
                    )))),
          ))

  judge-Verdict :
      (alert : Alert) (now : ℕ) (is : List Issue) (w : World)
      → Verdict wk alert now
          (ok is)
          w.db.statements
          (alerts_of w)
          (alerts_of (judge wk alert (now - timeframe_duration alert.timeframe) now is w).1)
  unfolding judge ask_metrics criteria_of
  judge-Verdict alert now [] w =
      if_either (is_triggered alert.status) (resolve_alert wk alert now) w
        (Verdict wk alert now (ok []) w.db.statements (alerts_of w))
        (resolves alert now (ok []) w (inl refl))
        (λ calm. inl (refl, inr (inr (inr (inr (inl refl, is_triggered-ne alert.status calm))))))
  judge-Verdict alert now (i ∷ is) w =
      elim (Option-cases (wk.metrics (criteria_of alert now (i ∷ is)))) [
        | inl refused ↦
            rw (refused, judge, ask_metrics) (inl (refl, inr (inl (i, is, refl, refused))))
        | inr (ms, answer) ↦
            rw (answer, judge, ask_metrics)
              (settle-Verdict alert now (ok (i ∷ is)) w (exceeds alert ms) (i ∷ is) ms refl answer
                refl)
      ]

  listing :
      (alert : Alert) (now : ℕ) (w : World)
      → alerts_of
          (on_db
            (list_issues wk.env
              (alert.project_id ∷ [])
              (now - timeframe_duration alert.timeframe)
              now)
            w).1
        ≡ alerts_of w
  unfolding list_issues exec
  listing alert now w =
      Keeps-on_db (λ db. db.alerts) _
        (λ db. elim (Bool-cases (wk.env.fails db.statements)) [
          | inl fails ↦ rw fails refl
          | inr runs ↦ rw runs refl
        ])
        w

  judged-Verdict :
      (alert : Alert) (now : ℕ) (w : World) (r : Result WorkerError (List Issue) × World)
      → alerts_of r.1 ≡ alerts_of w
      → Verdict wk alert now r.0 r.1.db.statements
          (alerts_of w)
          (alerts_of (and_then r (judge wk alert (now - timeframe_duration alert.timeframe) now)).1)
  judged-Verdict alert now w (ok is, w') h =
      subst
        (λ xs.
          Verdict wk alert now (ok is) w'.db.statements xs
            (alerts_of (judge wk alert (now - timeframe_duration alert.timeframe) now is w').1))
        h (judge-Verdict alert now is w')
  judged-Verdict alert now w (err e, w') h = inl (h, inl (e, refl))

  -- Whatever statements fail, a check of an alert, as it was read when the round began, sets the
  -- rows of its number to triggered at the time of the check, where it was active and some issue
  -- listed is counted above its threshold, or to active and resolved, where it was triggered and no
  -- issue is listed or none is counted above. It leaves the table of alerts as it was only where the
  -- issues or their metrics could not be got, the statement after the list of issues failed, or the
  -- alert was above its threshold and not active, or not above it and not triggered.
  pub check_locked-Verdict :
      (alert : Alert) (now : ℕ) (w : World)
      → Verdict wk alert now
          (on_db
            (list_issues wk.env
              (alert.project_id ∷ [])
              (now - timeframe_duration alert.timeframe)
              now)
            w).0
          (on_db
            (list_issues wk.env
              (alert.project_id ∷ [])
              (now - timeframe_duration alert.timeframe)
              now)
            w).1.db.statements
          (alerts_of w)
          (alerts_of (check_locked wk alert now w).1)
  unfolding check_locked
  check_locked-Verdict alert now w = judged-Verdict alert now w _ (listing alert now w)
