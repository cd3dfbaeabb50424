-- ===== src/Service/Access.antt =====
-- Who may see and change an alert.
use warnly.Base.{
  ℕ, ◌+◌, ◌≡◌, refl, sym, ap, subst, ◌∙◌, Bool, true, false, not, if◌then◌else◌, ◌==◌, some, length,
  find?, filter, Result, ok, err, and_then, ◌⊎◌, ◌↔◌, inl, inr, Bool-cases, Option-cases,
}
use warnly.Alert.{Alert}
use warnly.Db.Tables.{Db, exec, read_clock, not_found, statement_failed, bad_rows_affected}
use warnly.Db.Statements.{
  joined_teams, get_alert, list_teams, update_alert, update_rows, delete_alert, affected,
}
use warnly.Service.Alerts.{
  AlertService, ServiceError, store, no_alert_access, lift_store, from_store, has_access,
  visible_alert, edited, UpdateAlertRequest, update_user_alert, delete_user_alert, get_user_alert,
}

-- The database after `n` more statements that only read.
abbrev pub after : ℕ → Db → Db
after n db = record db { statements = n }

-- The alert of that id is there, and its team is among those listed for the user.
abbrev pub Visible : ℕ → ℕ → Db → Alert → Type 0
Visible alert_id user_id db alert =
    (find? (λ a. a.id == alert_id) db.alerts ≡ some alert)
    × (has_access (joined_teams user_id db) alert.team_id ≡ true)

module _ (svc : AlertService) (alert_id user_id : ℕ) where
  visible_alert-cases :
      (db : Db)
      → ((alert : Alert) × Visible alert_id user_id db alert
          × (visible_alert svc alert_id user_id db ≡ (ok alert, after (db.statements + 1 + 1) db)))
        ⊎ ((e : ServiceError) × (n : ℕ) × (visible_alert svc alert_id user_id db
              ≡ (err e, after n db)))
  unfolding visible_alert from_store get_alert list_teams exec
  visible_alert-cases db = elim (Bool-cases (svc.env.fails db.statements)) [
    | inl fails ↦ inr (
      store statement_failed,
      db.statements + 1,
      rw (fails, visible_alert, from_store, get_alert, exec) refl,
    )
    | inr runs ↦ elim (Option-cases (find? (λ a. a.id == alert_id) db.alerts)) [
      | inl missing ↦ inr (
        store not_found,
        db.statements + 1,
        rw (runs, missing, visible_alert, from_store, get_alert, exec) refl,
      )
      | inr (alert, found) ↦ elim (Bool-cases (svc.env.fails (db.statements + 1))) [
        | inl fails ↦ inr (
          store statement_failed,
          db.statements + 1 + 1,
          rw (runs, found, fails, visible_alert, from_store, get_alert, list_teams, exec) refl,
        )
        | inr both ↦ elim (Bool-cases (has_access (joined_teams user_id db) alert.team_id)) [
          | inl may ↦ inl (
            alert,
            (found, may),
            rw (runs, found, both, may, visible_alert, from_store, get_alert, list_teams, exec)
                refl,
          )
          | inr denied ↦ inr (
            no_alert_access,
            db.statements + 1 + 1,
            rw (runs, found, both, denied, visible_alert, from_store, get_alert, list_teams, exec)
                refl,
          )
        ]
      ]
    ]
  ]

abbrev result_ok : {A : Type 0} → A → Result ServiceError A
result_ok x = ok x

ok_inj : {A : Type 0} {x y : A} → result_ok x ≡ result_ok y → x ≡ y
ok_inj h = cc

err_ok : {A B : Type 0} {e : ServiceError} {a : A} → err e ≡ result_ok a → B
err_ok h = cc

rows_kept :
    (b : Bool) (a : Alert) (db : Db)
    → (and_then {B = Alert}
        (lift_store (if b then ok tt else err bad_rows_affected, db))
        (λ u s. (ok a, s))).1.alerts
      ≡ db.alerts
rows_kept true a db = refl
rows_kept false a db = refl

deletion_kept :
    (b : Bool) (db : Db)
    → (lift_store {A = Unit {0}} (if b then ok tt else err bad_rows_affected, db)).1.alerts
      ≡ db.alerts
deletion_kept true db = refl
deletion_kept false db = refl

module _ (svc : AlertService) where
  granted :
      (alert_id user_id : ℕ) (db : Db) (alert : Alert)
      → ((n : ℕ) → svc.env.fails n ≡ false)
      → find? (λ a. a.id == alert_id) db.alerts ≡ some alert
      → has_access (joined_teams user_id db) alert.team_id ≡ true
      → (visible_alert svc alert_id user_id db).0 ≡ ok alert
  unfolding visible_alert from_store get_alert list_teams exec
  granted alert_id user_id db alert runs found may =
      rw (runs db.statements, found, visible_alert, from_store, get_alert, list_teams, exec)
        (rw (runs (db.statements + 1), may) refl)

  pub get_user_alert_lem :
      (alert_id user_id : ℕ) (db : Db) (alert : Alert)
      → (((get_user_alert svc alert_id user_id db).0 ≡ ok alert)
          → Visible alert_id user_id db alert)
        × (((n : ℕ) → svc.env.fails n ≡ false)
            → Visible alert_id user_id db alert
            → (get_user_alert svc alert_id user_id db).0 ≡ ok alert)
  unfolding get_user_alert
  get_user_alert_lem alert_id user_id db alert = (
    λ h. elim (visible_alert-cases svc alert_id user_id db) [
      | inl (a, seen, e) ↦
          subst (Visible alert_id user_id db)
            (ok_inj (sym (ap (λ (r : Result ServiceError Alert × Db). r.0) e) ∙ h)) seen
      | inr (e, n, q) ↦ err_ok (sym (ap (λ (r : Result ServiceError Alert × Db). r.0) q) ∙ h)
    ],
    λ runs (found, may). granted alert_id user_id db alert runs found may,
  )

  -- Where no statement fails, an alert is returned exactly if it has the id asked for and its team
  -- is among those that the store lists for the user.
  pub get_user_alert_iff :
      (alert_id user_id : ℕ) (db : Db) (alert : Alert)
      → ((n : ℕ) → svc.env.fails n ≡ false)
      → ((get_user_alert svc alert_id user_id db).0 ≡ ok alert) ↔ Visible alert_id user_id db alert
  get_user_alert_iff alert_id user_id db alert runs =
      let (only, all) = get_user_alert_lem alert_id user_id db alert in (only, all runs)

  -- Whatever statements fail, an update leaves the table of alerts as it was, or sets the columns
  -- that may be edited in the rows of that id, where the alert was there and its team is among
  -- those that the store lists for the user.
  pub update_user_alert_access :
      (req : UpdateAlertRequest) (db : Db)
      → let db' = (update_user_alert svc req db).1 in
        (db'.alerts ≡ db.alerts)
        ⊎ ((alert : Alert) × Visible req.alert_id req.user_id db alert
            × (db'.alerts
                ≡ update_rows (edited svc req (svc.env.clock db.readings) alert) db.alerts))
  unfolding update_user_alert from_store read_clock update_alert exec affected update_rows
  update_user_alert_access req db = elim (visible_alert-cases svc req.alert_id req.user_id db) [
    | inl (a, seen, e) ↦ elim (Bool-cases (svc.env.fails (db.statements + 1 + 1))) [
      | inl fails ↦ inl (rw (e, fails, update_user_alert, from_store, update_alert, exec) refl)
      | inr runs ↦ inr (
        a,
        seen,
        rw (e, runs, update_user_alert, from_store, update_alert, exec)
            (rows_kept
              (affected svc.env (edited svc req (svc.env.clock db.readings) a) db.alerts == 1)
              (edited svc req (svc.env.clock db.readings) a)
              (record db {
                alerts = update_rows (edited svc req (svc.env.clock db.readings) a) db.alerts;
                readings = db.readings + 1;
                statements = db.statements + 1 + 1 + 1;
              })),
      )
    ]
    | inr (e, n, q) ↦ inl (rw (q, update_user_alert) refl)
  ]

  -- Whatever statements fail, a deletion leaves the table of alerts as it was, or takes away the
  -- rows of that id, where the alert was there and its team is among those that the store lists
  -- for the user.
  pub delete_user_alert_access :
      (alert_id user_id : ℕ) (db : Db)
      → let db' = (delete_user_alert svc alert_id user_id db).1 in
        (db'.alerts ≡ db.alerts)
        ⊎ ((alert : Alert) × Visible alert_id user_id db alert
            × (db'.alerts ≡ filter (λ a. not (a.id == alert_id)) db.alerts))
  unfolding delete_user_alert from_store delete_alert exec
  delete_user_alert_access alert_id user_id db =
      elim (visible_alert-cases svc alert_id user_id db) [
        | inl (a, seen, e) ↦ elim (Bool-cases (svc.env.fails (db.statements + 1 + 1))) [
          | inl fails ↦ inl (rw (e, fails, delete_user_alert, from_store, delete_alert, exec) refl)
          | inr runs ↦ inr (
            a,
            seen,
            rw (e, runs, delete_user_alert, from_store, delete_alert, exec)
                (deletion_kept (length (filter (λ x. x.id == alert_id) db.alerts) == 1) (record db {
                  alerts = filter (λ x. not (x.id == alert_id)) db.alerts;
                  statements = db.statements + 1 + 1 + 1;
                })),
          )
        ]
        | inr (e, n, q) ↦ inl (rw (q, delete_user_alert) refl)
      ]
