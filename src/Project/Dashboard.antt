-- ===== src/Project/Dashboard.antt =====
-- The chart of `DashboardDataForPeriod` of internal/warnly/project.go. A time is the number of
-- nanoseconds since the first of January of year 1, from which `Time.Truncate` counts.
use warnly.Base.{
  ℕ, zero, suc, ◌+◌, ◌-◌, ◌*◌, ◌/◌, ◌%◌, ◌^◌, Bool, ◌&&◌, List, [], ◌∷◌, ◌++◌, map, if◌then◌else◌,
  ◌==◌, leb, ltb, Bytes, text, is_empty, join, Result, ok, err,
}
use Prim.Native.Nat.{min}
use warnly.Base.Int.{ℤ, pos, sub_ℕ, ltb_ℤ}
use warnly.Project.Duration.{DurationError, parse_duration}
use warnly.Project.Types.{EventsPerHour, before}

abbrev pub hour : ℕ
hour = 3600 * 10 ^ 9

abbrev pub day : ℕ
day = 24 * 3600 * 10 ^ 9

abbrev pub truncate : ℕ → ℕ → ℕ
truncate t d = t - t % d

abbrev pub or_day : Result DurationError ℤ → ℤ
or_day (ok d) = d
or_day (err e) = pos day

unfoldable pub period_duration : Bytes → ℤ
period_duration period = or_day (parse_duration (if is_empty period then text "24h" else period))

unfoldable pub interval_of : ℤ → ℕ
interval_of d =
    if ltb_ℤ (pos day) d then (if ltb_ℤ (pos (7 * day)) d then day else 6 * hour) else hour

-- The hour behind the one that it is.
abbrev pub next_hour : ℕ → ℕ
next_hour now = truncate now hour + hour

-- A period of less than six hours is shown as a day.
abbrev pub start_before : ℕ → ℤ → ℕ
start_before end d = if ltb_ℤ d (pos (6 * hour)) then end - 24 * hour else before d end

unfoldable pub start_time : ℕ → ℤ → ℕ
start_time now d = start_before (next_hour now) d

unfoldable pub end_time : ℕ → ℕ → ℕ
end_time now interval =
    let end = truncate (next_hour now) interval in if ltb end now then end + interval else end

-- `end.Sub(start)`, which stops at the longest duration.
abbrev pub sub : ℕ → ℕ → ℕ
sub end start = min (end - start) (2 ^ 63 - 1)

pub record Axis : Type 0 where
  pub start : ℕ
  pub interval : ℕ
  pub num_points : ℕ

-- More than a hundred points are made a hundred.
unfoldable pub limited : ℕ → ℕ → ℕ → Axis
limited start length interval =
    if ltb 100 (length / interval)
    then record { start = truncate start (length / 100); interval = length / 100; num_points = 100 }
    else record { start = start; interval = interval; num_points = length / interval }

unfoldable pub axis : ℕ → ℤ → Axis
unfolding start_time end_time interval_of limited
axis now d =
    let start = truncate (start_time now d) (interval_of d) in
    limited start (sub (end_time now (interval_of d)) start) (interval_of d)

-- Seconds; the offset of Unix times is left out, as it is added again where a key is read.
abbrev pub hour_key : ℕ → ℕ
hour_key ts = truncate ts hour / 10 ^ 9

-- `hourlyEventMap[key] += count`.
unfoldable pub add_count : ℕ → ℕ → List (ℕ × ℕ) → List (ℕ × ℕ)
add_count key n [] = (key, n) ∷ []
add_count key n ((k, m) ∷ rest) =
    let more = add_count key n rest in if k == key then (k, m + n) ∷ rest else (k, m) ∷ more

unfoldable pub hourly_events : List EventsPerHour → List (ℕ × ℕ) → List (ℕ × ℕ)
unfolding add_count
hourly_events [] hours = hours
hourly_events (e ∷ es) hours = hourly_events es (add_count (hour_key e.ts) e.count hours)

-- The time lies in the bucket.
abbrev pub falls : ℕ → ℕ → ℕ → Bool
falls start end t = leb start t && ltb t end

unfoldable pub count_in : ℕ → ℕ → List (ℕ × ℕ) → ℕ
count_in start end [] = 0
count_in start end ((key, n) ∷ rest) =
    let others = count_in start end rest in
    if falls start end (key * 10 ^ 9) then n + others else others

-- The starts of the buckets from the i-th one on.
unfoldable pub bucket_starts : Axis → ℕ → ℕ → List ℕ
bucket_starts ax i zero = []
bucket_starts ax i (suc n) = (ax.start + i * ax.interval) ∷ bucket_starts ax (i + 1) n

unfoldable pub bucket_counts : Axis → List (ℕ × ℕ) → List ℕ → List ℕ
unfolding count_in
bucket_counts ax hours [] = []
bucket_counts ax hours (s ∷ starts) =
    count_in s (s + ax.interval) hours ∷ bucket_counts ax hours starts

unfoldable pub dashboard_counts : ℕ → Bytes → List EventsPerHour → List ℕ
unfolding axis period_duration hourly_events bucket_starts bucket_counts
dashboard_counts now period events =
    let ax = axis now (period_duration period) in
    bucket_counts ax (hourly_events events []) (bucket_starts ax 0 ax.num_points)

abbrev pub unix_seconds : ℕ → ℤ
unix_seconds t = sub_ℕ (t / 10 ^ 9) 62135596800

-- The text of the chart; `format_int` and `itoa` are of strconv.
unfoldable pub dashboard_data_for_period :
    (ℤ → Bytes) → (ℕ → Bytes) → ℕ → Bytes → List EventsPerHour → Bytes
unfolding dashboard_counts
dashboard_data_for_period format_int itoa now period events =
    let ax = axis now (period_duration period) in
    text "[["
    ++ join (text ",") (map (λ t. format_int (unix_seconds t)) (bucket_starts ax 0 ax.num_points))
    ++ text "],["
    ++ join (text ",") (map itoa (dashboard_counts now period events))
    ++ text "]]"

-- The sum that `TotalErrors` writes.
unfoldable pub total_count : List EventsPerHour → ℕ
total_count [] = 0
total_count (e ∷ es) = e.count + total_count es

-- `tenths` writes a quotient with one digit behind the point.
unfoldable pub total_errors : (ℕ → ℕ → Bytes) → (ℕ → Bytes) → List EventsPerHour → Bytes
unfolding total_count
total_errors tenths itoa events =
    let total = total_count events in
    if ltb 1000000 total
    then tenths total 1000000 ++ text "m"
    else if ltb 1000 total
    then (if total % 1000 == 0
        then itoa (total / 1000) ++ text "k"
        else tenths total 1000 ++ text "k")
    else itoa total
