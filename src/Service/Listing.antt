-- ===== src/Service/Listing.antt =====
-- Which alerts a user is shown in a list.
use warnly.Base.{
  ℕ, zero, suc, ◌+◌, ◌≡◌, refl, sym, ap, subst, ◌∙◌, Bool, true, false, ◌&&◌, List, [], ◌∷◌, map,
  if◌then◌else◌, Bytes, find?, length, filter, take, drop, All, Result, ok, err, Action, and_then,
  pure, ◌>>=◌, Bool-cases, inl, inr, arith, bytes_eq,
}
use warnly.Alert.{Alert}
use warnly.Db.Tables.{Db, Env, DbError, M, Team, Project, exec, statement_failed}
use warnly.Db.Statements.{
  joined_teams, has_id, in_teams, matching_alerts, list_teams, list_alerts, list_projects,
}
use warnly.Service.Alerts.{
  AlertService, ServiceError, S, lift_store, from_store, has_access, ListAlertsRequest,
  ListAlertsResult, list_user_alerts, requested_teams, named_team,
}

and_then-ok :
    {E A B : Type 0} (r : Result E A × Db) (f : A → Action Db E B) {b : B} {db' : Db}
    → and_then r f ≡ (ok b, db')
    → (a : A) × (db : Db) × (r ≡ (ok a, db)) × (f a db ≡ (ok b, db'))
and_then-ok (ok a, db) f h = (a, db, refl, h)
and_then-ok (err e, db) f h = cc

>>=-ok :
    {E A B : Type 0} (m : Action Db E A) (f : A → Action Db E B) (db : Db) {b : B} {db' : Db}
    → (m >>= f) db ≡ (ok b, db')
    → (a : A) × (d : Db) × (m db ≡ (ok a, d)) × (f a d ≡ (ok b, db'))
>>=-ok m f db h = and_then-ok (m db) f h

lift_store-ok :
    {A : Type 0} (r : Result DbError A × Db) {a : A} {db' : Db}
    → lift_store r ≡ (ok a, db')
    → r ≡ (ok a, db')
lift_store-ok (ok a, db) h = cc
lift_store-ok (err e, db) h = cc

if_ok :
    {A : Type 0} (b : Bool) (d : Db) (r : Result DbError A × Db) {a : A} {db' : Db}
    → (if b then (err statement_failed, d) else r) ≡ (ok a, db')
    → r ≡ (ok a, db')
if_ok true d r h = cc
if_ok false d r h = h

exec-ok :
    {A : Type 0} (env : Env) (run : M A) (db : Db) {a : A} {db' : Db}
    → exec env run db ≡ (ok a, db')
    → run (record db { statements = db.statements + 1 }) ≡ (ok a, db')
unfolding exec
exec-ok env run db h =
    if_ok (env.fails db.statements) (record db { statements = db.statements + 1 })
      (run (record db { statements = db.statements + 1 })) h

has_id-map :
    (teams : List Team) (n : ℕ) → has_id (map (λ (t : Team). t.id) teams) n ≡ has_access teams n
unfolding has_access
has_id-map [] n = refl
has_id-map (t ∷ teams) n = rw (has_id-map teams n) refl

named_team-has_access :
    (p : Team → Bool) (teams : List Team) (n : ℕ)
    → has_id (named_team (find? p teams)) n ≡ true
    → has_access teams n ≡ true
unfolding has_access
named_team-has_access p [] n h = cc
named_team-has_access p (t ∷ teams) n h = ground (arith, named_team-has_access p teams n)

requested_teams-has_access :
    (teams : List Team) (name : Bytes) (n : ℕ)
    → has_id (requested_teams teams name) n ≡ true
    → has_access teams n ≡ true
unfolding requested_teams
requested_teams-has_access teams [] n h = sym (has_id-map teams n) ∙ h
requested_teams-has_access teams (c ∷ name) n h =
    named_team-has_access (λ (t : Team). bytes_eq t.name (c ∷ name)) teams n h

All-map :
    {A : Type 0} (P Q : A → Type 0) → ((x : A) → P x → Q x) → (xs : List A) → All P xs → All Q xs
All-map P Q f [] h = tt
All-map P Q f (x ∷ xs) (p, h) = (f x p, All-map P Q f xs h)

module _ {A : Type 0} (P : A → Type 0) where
  All-take : (n : ℕ) (xs : List A) → All P xs → All P (take n xs)
  All-take zero xs h = tt
  All-take (suc n) [] h = tt
  All-take (suc n) (x ∷ xs) (p, h) = (p, All-take n xs h)

  All-drop : (n : ℕ) (xs : List A) → All P xs → All P (drop n xs)
  All-drop zero xs h = h
  All-drop (suc n) [] h = tt
  All-drop (suc n) (x ∷ xs) (p, h) = All-drop n xs h

  All-filter : (p : A → Bool) (xs : List A) → ((x : A) → p x ≡ true → P x) → All P (filter p xs)
  All-filter p [] sound = tt
  All-filter p (x ∷ xs) sound = elim (Bool-cases (p x)) [
    | inl k ↦ rw k (sound x k, All-filter p xs sound)
    | inr k ↦ rw k (All-filter p xs sound)
  ]

and_left : (a b : Bool) → (a && b) ≡ true → a ≡ true
and_left a b h = ground (arith, h)

abbrev or_nil : Result DbError (List Alert) → List Alert
or_nil (ok xs) = xs
or_nil (err e) = []

abbrev rows_of : Result DbError (List Alert × ℕ) → List Alert
rows_of (ok p) = p.0
rows_of (err e) = []

module _ (env : Env) where
  list_teams-ok :
      (u : ℕ) (db : Db) {teams : List Team} {db' : Db}
      → list_teams env u db ≡ (ok teams, db')
      → joined_teams u db ≡ teams
  unfolding list_teams joined_teams
  list_teams-ok u db h = ground (arith, exec-ok env _ db h)

  abbrev count_rows : List ℕ → Bytes → M ℕ
  count_rows ids name = exec env (λ db. (ok (length (matching_alerts ids name db)), db))

  abbrev page_rows : List ℕ → Bytes → ℕ → ℕ → M (List Alert)
  page_rows ids name offset limit =
      exec env (λ db. (ok (take limit (drop offset (matching_alerts ids name db))), db))

  list_alerts-ok :
      (ids : List ℕ) (name : Bytes) (offset limit : ℕ) (db : Db) {page : List Alert × ℕ} {db' : Db}
      → list_alerts env ids name offset limit db ≡ (ok page, db')
      → (d : Db) × (page.0 ≡ take limit (drop offset (matching_alerts ids name d)))
  unfolding list_alerts
  list_alerts-ok ids name offset limit db h =
      let (total, d, e, k) =
        >>=-ok (count_rows ids name)
          (λ total. page_rows ids name offset limit >>= λ page. pure (page, total)) db h in
      let (rows, d', e', k') =
        >>=-ok (page_rows ids name offset limit) (λ page. pure (page, total)) d k in
      (
        record d { statements = d.statements + 1 },
        sym (ap (λ (r : Result DbError (List Alert × ℕ) × Db). rows_of r.0) k')
            ∙ sym (ap (λ (r : Result DbError (List Alert) × Db). or_nil r.0) (exec-ok env _ d e')),
      )

  list_projects-ok :
      {A : Type 0} (db : Db) {ps : List Project} {db' : Db}
      → list_projects env [] db ≡ (ok ps, db')
      → A
  unfolding list_projects
  list_projects-ok db h = cc

  matching_alerts-All :
      (t : ℕ) (ts : List ℕ) (name : Bytes) (db : Db)
      → All (λ (a : Alert). has_id (t ∷ ts) a.team_id ≡ true) (matching_alerts (t ∷ ts) name db)
  unfolding matching_alerts in_teams
  matching_alerts-All t ts name db = All-filter _ _ db.alerts (λ a h. and_left _ _ h)

abbrev alerts_of : Result ServiceError ListAlertsResult × Db → List Alert
alerts_of (ok res, db) = res.alerts
alerts_of (err e, db) = []

module _ (svc : AlertService) where
  shown_access :
      (ids : List ℕ) (teams : List Team) (name : Bytes) (offset limit : ℕ) (d d' : Db)
      {ps : List Project} {d'' : Db}
      → ((n : ℕ) → has_id ids n ≡ true → has_access teams n ≡ true)
      → list_projects svc.env ids d' ≡ (ok ps, d'')
      → All
          (λ (a : Alert). has_access teams a.team_id ≡ true)
          (take limit (drop offset (matching_alerts ids name d)))
  shown_access [] teams name offset limit d d' may h = list_projects-ok svc.env d' h
  shown_access (t ∷ ts) teams name offset limit d d' may h = All-take _ limit _ (
      All-drop _ offset _
        (All-map _ _ (λ a. may a.team_id) _ (matching_alerts-All svc.env t ts name d)))

  abbrev result_of :
      ListAlertsRequest → List Team → List Alert × ℕ → List Project → ListAlertsResult
  result_of req teams page projects = record {
    request = req;
    alerts = page.0;
    projects = projects;
    teams = teams;
    total_alerts = page.1;
  }

  abbrev finish : ListAlertsRequest → List Team → List Alert × ℕ → S ListAlertsResult
  finish req teams page =
      from_store (list_projects svc.env (requested_teams teams req.team_name)) >>= λ projects.
      pure (result_of req teams page projects)

  abbrev continue : ListAlertsRequest → List Team → S ListAlertsResult
  continue req teams =
      from_store (
        list_alerts svc.env (requested_teams teams req.team_name) req.project_name req.offset
          req.limit)
      >>= finish req teams

  -- Every alert of a list that is returned is of a team that the store lists for the user,
  -- whatever team name, project name and page are asked for.
  pub list_user_alerts_access :
      (req : ListAlertsRequest) (db db' : Db) (res : ListAlertsResult)
      → list_user_alerts svc req db ≡ (ok res, db')
      → All (λ (a : Alert). has_access (joined_teams req.user_id db) a.team_id ≡ true) res.alerts
  unfolding list_user_alerts from_store
  list_user_alerts_access req db db' res h =
      let (teams, d, e, k) =
        >>=-ok (from_store (list_teams svc.env req.user_id)) (continue req) db h in
      let (page, d', e', k') =
        >>=-ok
          (from_store (
            list_alerts svc.env (requested_teams teams req.team_name) req.project_name req.offset
              req.limit))
          (finish req teams) d k in
      let (projects, d'', e'', k'') =
        >>=-ok (from_store (list_projects svc.env (requested_teams teams req.team_name)))
          (λ projects. pure (result_of req teams page projects)) d' k' in
      let (at, rows) =
        list_alerts-ok svc.env _ req.project_name req.offset req.limit d (lift_store-ok _ e') in
      let listed = list_teams-ok svc.env req.user_id db (lift_store-ok _ e) in
      let shown =
        shown_access (requested_teams teams req.team_name) teams req.project_name req.offset
          req.limit at d' (requested_teams-has_access teams req.team_name) (lift_store-ok _ e'') in
      subst (λ ts. All (λ (a : Alert). has_access ts a.team_id ≡ true) res.alerts) (sym listed)
        (subst (All (λ (a : Alert). has_access teams a.team_id ≡ true))
          (sym rows ∙ ap alerts_of k'') shown)
