-- ===== src/Project/ChartTests.antt =====
-- The chart on concrete events.
use warnly.Base.{ℕ, ◌+◌, ◌-◌, ◌*◌, ◌≡◌, refl, List, [], ◌∷◌, text, arith}
use warnly.Project.Duration.{parse_duration}
use warnly.Project.Types.{EventsPerHour, before}
use warnly.Project.Dashboard.{hour, day, start_time, period_duration, dashboard_counts, total_count}
use warnly.Project.Buckets.{sum, sum-dashboard_counts-total}

abbrev noon : ℕ
noon = 738000 * day + 12 * hour + 1234567890

abbrev two_hours : List EventsPerHour
two_hours =
    record { ts = noon - hour; project_id = 1; count = 3 }
    ∷ record { ts = noon - 7 * day; project_id = 1; count = 4 }
    ∷ []

-- With more than a hundred days the chart ends too early: the events of the last hour are left out.
chart_of_200_days : sum (dashboard_counts noon (text "200d") two_hours) ≡ 4
unfolding sum dashboard_counts parse_duration before
chart_of_200_days = refl

sum-dashboard_counts-total_example :
    sum (dashboard_counts noon (text "14d") two_hours) ≡ total_count two_hours
unfolding start_time period_duration parse_duration before
sum-dashboard_counts-total_example =
    sum-dashboard_counts-total noon (text "14d") two_hours (ground arith)
      ((ground arith, ground arith), ((ground arith, ground arith), tt))
