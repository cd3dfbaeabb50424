-- ===== src/Worker/Verdict.antt =====
-- What a check may make of an alert: the statement that Decision proves of it.
use warnly.Base.{
  ◌<◌, ◌≤◌, All, ltb, ltb→lt, arith, ℕ, ◌-◌, ◌==◌, ◌≡◌, ◌≢◌, refl, true, false, ◌⊎◌, Bool-cases,
  inl, inr, none, some, List, [], ◌∷◌, map, if◌then◌else◌, Result, ok, err,
}
use warnly.Alert.{
  Alert, AlertStatus, active, inactive, triggered, other, AlertCondition, occurrences, users,
  other_condition, to_uint64, is_active, is_triggered, timeframe_duration,
}
use warnly.Db.Tables.{Issue}
use warnly.Worker.Check.{
  WorkerError, metric_value, exceeds, IssueMetrics, MetricsCriteria, AlertWorker,
}

-- What the condition of an alert counts: the users for one on users, else the events.
abbrev pub counted : AlertCondition → IssueMetrics → ℕ
counted occurrences m = m.times_seen
counted users m = m.user_count
counted (other_condition n) m = m.times_seen

-- Some issue is counted above the threshold.
abbrev pub IsOver : Alert → List IssueMetrics → Type 0
IsOver alert [] = ⊥
IsOver alert (m ∷ ms) = (to_uint64 alert.threshold < counted alert.condition m) ⊎ IsOver alert ms

-- No issue is.
abbrev pub IsUnder : Alert → List IssueMetrics → Type 0
IsUnder alert ms = All (λ m. counted alert.condition m ≤ to_uint64 alert.threshold) ms

-- The row of the alert when it is triggered, and when it is resolved.
abbrev pub triggered_row : Alert → ℕ → Alert → Alert
triggered_row alert now row = record alert {
  status = triggered;
  updated_at = now;
  last_triggered_at = some now;
  created_at = row.created_at;
  id = row.id;
  project_id = row.project_id;
  team_id = row.team_id;
}

abbrev pub resolved_row : Alert → ℕ → Alert → Alert
resolved_row alert now row = record alert {
  status = active;
  updated_at = now;
  resolved_at = some now;
  created_at = row.created_at;
  id = row.id;
  project_id = row.project_id;
  team_id = row.team_id;
}

abbrev pub set_rows : Alert → (Alert → Alert) → List Alert → List Alert
set_rows alert f rows = map (λ (row : Alert). if row.id == alert.id then f row else row) rows

metric_value-counted : (c : AlertCondition) (m : IssueMetrics) → metric_value c m ≡ counted c m
unfolding metric_value
metric_value-counted occurrences m = refl
metric_value-counted users m = refl
metric_value-counted (other_condition n) m = refl

true-false : true ≡ false → ⊥
true-false h = cc

not_below : (a b : ℕ) → ltb a b ≡ false → b ≤ a
not_below a b h = ground (arith, h)

pub exceeds-IsOver :
    (alert : Alert) (ms : List IssueMetrics) → exceeds alert ms ≡ true → IsOver alert ms
unfolding exceeds
exceeds-IsOver alert [] h = cc
exceeds-IsOver alert (m ∷ ms) h =
    elim (Bool-cases (ltb (to_uint64 alert.threshold) (metric_value alert.condition m))) [
      | inl over ↦ inl (rw⁻¹ (metric_value-counted alert.condition m) (ltb→lt _ _ over))
      | inr under ↦ inr (exceeds-IsOver alert ms (rw under at h))
    ]

pub exceeds-IsUnder :
    (alert : Alert) (ms : List IssueMetrics) → exceeds alert ms ≡ false → IsUnder alert ms
unfolding exceeds
exceeds-IsUnder alert [] h = tt
exceeds-IsUnder alert (m ∷ ms) h =
    elim (Bool-cases (ltb (to_uint64 alert.threshold) (metric_value alert.condition m))) [
      | inl over ↦ absurd (true-false (rw over at h))
      | inr under ↦ (
        rw⁻¹ (metric_value-counted alert.condition m) (not_below _ _ under),
        exceeds-IsUnder alert ms (rw under at h),
      )
    ]

pub is_active-active : (s : AlertStatus) → is_active s ≡ true → s ≡ active
unfolding is_active
is_active-active active h = refl
is_active-active inactive h = cc
is_active-active triggered h = cc
is_active-active (other n) h = cc

pub is_triggered-triggered : (s : AlertStatus) → is_triggered s ≡ true → s ≡ triggered
unfolding is_triggered
is_triggered-triggered active h = cc
is_triggered-triggered inactive h = cc
is_triggered-triggered triggered h = refl
is_triggered-triggered (other n) h = cc

pub is_active-ne : (s : AlertStatus) → is_active s ≡ false → s ≢ active
unfolding is_active
is_active-ne active h = λ _. true-false h
is_active-ne inactive h = λ e. cc
is_active-ne triggered h = λ e. cc
is_active-ne (other n) h = λ e. cc

pub is_triggered-ne : (s : AlertStatus) → is_triggered s ≡ false → s ≢ triggered
unfolding is_triggered
is_triggered-ne active h = λ e. cc
is_triggered-ne inactive h = λ e. cc
is_triggered-ne triggered h = λ _. true-false h
is_triggered-ne (other n) h = λ e. cc

-- What the check measures: the issues seen in the time frame, none, or those whose metrics say
-- whether the threshold is exceeded.
unfoldable pub criteria_of : Alert → ℕ → List Issue → MetricsCriteria
criteria_of alert now is = record {
  project_ids = alert.project_id ∷ [];
  group_ids = map (λ (x : Issue). x.id) is;
  from = now - timeframe_duration alert.timeframe;
  to = now;
}

module _ (wk : AlertWorker) where
  -- Metrics were got for the issues listed, and satisfy `P`.
  abbrev pub Asked :
      (List IssueMetrics → Type 0) → Alert → ℕ → Result WorkerError (List Issue) → Type 0
  Asked P alert now listed =
      (is : List Issue) × (ms : List IssueMetrics) × (listed ≡ ok is)
      × (wk.metrics (criteria_of alert now is) ≡ some ms)
      × P ms

  -- Why the alerts stay as they are: the issues or their metrics could not be got, or the statement
  -- numbered `n`, which follows the list of the issues, failed, or the alert is over its threshold
  -- and not active, or not over it and not triggered.
  abbrev pub HasReason : Alert → ℕ → Result WorkerError (List Issue) → ℕ → Type 0
  HasReason alert now listed n =
      ((e : WorkerError) × (listed ≡ err e))
      ⊎ ((i : Issue) × (is : List Issue) × (listed ≡ ok (i ∷ is))
          × (wk.metrics (criteria_of alert now (i ∷ is)) ≡ none))
      ⊎ (wk.env.fails n ≡ true)
      ⊎ (Asked (IsOver alert) alert now listed × (alert.status ≢ active))
      ⊎ (((listed ≡ ok []) ⊎ Asked (IsUnder alert) alert now listed) × (alert.status ≢ triggered))

  -- An alert stays as it is, or is marked triggered, or active again.
  abbrev pub Verdict :
      Alert → ℕ → Result WorkerError (List Issue) → ℕ → List Alert → List Alert → Type 0
  Verdict alert now listed n xs ys =
      ((ys ≡ xs) × HasReason alert now listed n)
      ⊎ (Asked (IsOver alert) alert now listed
          × (alert.status ≡ active)
          × (ys ≡ set_rows alert (triggered_row alert now) xs))
      ⊎ (((listed ≡ ok []) ⊎ Asked (IsUnder alert) alert now listed)
          × (alert.status ≡ triggered)
          × (ys ≡ set_rows alert (resolved_row alert now) xs))
