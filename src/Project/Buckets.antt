-- ===== src/Project/Buckets.antt =====
-- What the buckets of `DashboardDataForPeriod` add up to.
use warnly.Base.{
  ℕ, zero, suc, ◌+◌, ◌*◌, ◌/◌, ◌^◌, ◌≤◌, ◌<◌, ◌≡◌, refl, sym, ◌∙◌, true, false, List, [], ◌∷◌,
  if◌then◌else◌, ◌==◌, Bytes, lt→ltb, le→leb, inl, inr, Bool-cases, All, arith,
}
use native.Mathlib.Nat.{zero-mul, suc-mul, add-mul, one-mul, add-zero, div-mul-le_self}
use warnly.Base.Int.{pos_part}
use warnly.Project.Types.{EventsPerHour}
use warnly.Project.Window.{limited-fine, covers, near_now}
use warnly.Project.Dashboard.{
  hour, day, truncate, period_duration, interval_of, start_time, end_time, sub, Axis, axis,
  hour_key, add_count, hourly_events, falls, count_in, bucket_starts, bucket_counts,
  dashboard_counts, total_count,
}

unfoldable pub sum : List ℕ → ℕ
sum [] = 0
sum (n ∷ ns) = n + sum ns

-- The events of the hours in the window.
unfoldable pub count_between : ℕ → ℕ → List EventsPerHour → ℕ
count_between start end [] = 0
count_between start end (e ∷ es) =
    (if falls start end (truncate e.ts hour) then e.count else 0) + count_between start end es

abbrev inside : ℕ → ℕ → ℕ → ℕ → ℕ
inside s e t n = if falls s e t then n else 0

inside-add : (s e t m n : ℕ) → inside s e t (m + n) ≡ inside s e t n + inside s e t m
inside-add s e t m n = elim (Bool-cases (falls s e t)) [
  | inl h ↦ rw h (omega arith)
  | inr h ↦ rw h refl
]

inside-split : (a b c t n : ℕ) → a ≤ b → b ≤ c → inside a b t n + inside b c t n ≡ inside a c t n
inside-split a b c t n h k = ground (arith, h, k)

inside-empty : (a t n : ℕ) → inside a a t n ≡ 0
inside-empty a t n = ground arith

counted_or_not :
    (s e t n others : ℕ) → (if falls s e t then n + others else others) ≡ inside s e t n + others
counted_or_not s e t n others = elim (Bool-cases (falls s e t)) [
  | inl h ↦ rw h refl
  | inr h ↦ rw h (omega arith)
]

count_in-cons :
    (s e key n : ℕ) (rest : List (ℕ × ℕ))
    → count_in s e ((key, n) ∷ rest) ≡ inside s e (key * 10 ^ 9) n + count_in s e rest
unfolding count_in
count_in-cons s e key n rest = counted_or_not s e (key * 10 ^ 9) n (count_in s e rest)

add_count-same :
    (key n k m : ℕ) (rest : List (ℕ × ℕ))
    → k == key ≡ true
    → add_count key n ((k, m) ∷ rest) ≡ (k, m + n) ∷ rest
unfolding add_count
add_count-same key n k m rest h = rw h refl

add_count-other :
    (key n k m : ℕ) (rest : List (ℕ × ℕ))
    → k == key ≡ false
    → add_count key n ((k, m) ∷ rest) ≡ (k, m) ∷ add_count key n rest
unfolding add_count
add_count-other key n k m rest h = rw h refl

is_same : (k key : ℕ) → k == key ≡ true → key ≡ k
is_same k key h = ground (arith, h)

count_in-add_count :
    (s e key n : ℕ) (hours : List (ℕ × ℕ))
    → count_in s e (add_count key n hours) ≡ inside s e (key * 10 ^ 9) n + count_in s e hours
unfolding add_count
count_in-add_count s e key n [] = count_in-cons s e key n []
count_in-add_count s e key n ((k, m) ∷ rest) = elim (Bool-cases (k == key)) [
  | inl same ↦
      rw
        (
          add_count-same key n k m rest same,
          count_in-cons s e k (m + n) rest,
          count_in-cons s e k m rest,
          inside-add s e (k * 10 ^ 9) m n,
          is_same k key same,
        )
        (omega arith)
  | inr other ↦
      rw
        (
          add_count-other key n k m rest other,
          count_in-cons s e k m (add_count key n rest),
          count_in-cons s e k m rest,
          count_in-add_count s e key n rest,
        )
        (omega arith)
]

whole_hour : (t : ℕ) → hour_key t * 10 ^ 9 ≡ truncate t hour
whole_hour t = omega arith

count_in-hourly_events :
    (s e : ℕ) (es : List EventsPerHour) (hours : List (ℕ × ℕ))
    → count_in s e (hourly_events es hours) ≡ count_between s e es + count_in s e hours
unfolding hourly_events count_between
count_in-hourly_events s e [] hours = omega arith
count_in-hourly_events s e (ev ∷ es) hours =
    rw
      (
        count_in-hourly_events s e es (add_count (hour_key ev.ts) ev.count hours),
        count_in-add_count s e (hour_key ev.ts) ev.count hours,
        whole_hour ev.ts,
      )
      (omega arith)

count_in-split :
    (a b c : ℕ) (hours : List (ℕ × ℕ))
    → a ≤ b
    → b ≤ c
    → count_in a b hours + count_in b c hours ≡ count_in a c hours
unfolding count_in
count_in-split a b c [] h k = refl
count_in-split a b c ((key, n) ∷ rest) h k =
    rw (count_in-cons a b key n rest, count_in-cons b c key n rest, count_in-cons a c key n rest)
      (omega (arith, inside-split a b c (key * 10 ^ 9) n h k, count_in-split a b c rest h k))

count_in-empty : (a : ℕ) (hours : List (ℕ × ℕ)) → count_in a a hours ≡ 0
unfolding count_in
count_in-empty a [] = refl
count_in-empty a ((key, n) ∷ rest) =
    rw (count_in-cons a a key n rest)
      (omega (arith, inside-empty a (key * 10 ^ 9) n, count_in-empty a rest))

count_in-joined :
    (a b c b2 c2 : ℕ) (hours : List (ℕ × ℕ))
    → b2 ≡ b
    → c2 ≡ c
    → a ≤ b
    → b ≤ c
    → count_in a b hours + count_in b2 c2 hours ≡ count_in a c hours
count_in-joined a b c b2 c2 hours e e2 h k = rw (e, e2) (count_in-split a b c hours h k)

-- The starts and counts of the buckets are those of one window after the other.
sum-bucket_counts :
    (ax : Axis) (hours : List (ℕ × ℕ)) (i n : ℕ)
    → sum (bucket_counts ax hours (bucket_starts ax i n))
      ≡ count_in (ax.start + i * ax.interval) (ax.start + i * ax.interval + n * ax.interval) hours
unfolding sum bucket_counts bucket_starts
sum-bucket_counts ax hours i zero =
    rw (zero-mul ax.interval, add-zero (ax.start + i * ax.interval))
      (sym (count_in-empty (ax.start + i * ax.interval) hours))
sum-bucket_counts ax hours i (suc n) =
    rw
      (
        sum-bucket_counts ax hours (i + 1) n,
        add-mul i 1 ax.interval,
        one-mul ax.interval,
        suc-mul n ax.interval,
      )
      (count_in-joined (ax.start + i * ax.interval) (ax.start + i * ax.interval + ax.interval)
        (ax.start + i * ax.interval + (n * ax.interval + ax.interval)) _ _ hours (omega arith)
        (omega arith) (omega arith) (omega arith))

-- The buckets of the chart together hold the events of the hours from the start of the first one to
-- the end of the last one, each once.
sum-dashboard_counts :
    (now : ℕ) (period : Bytes) (events : List EventsPerHour) (ax : Axis)
    → axis now (period_duration period) ≡ ax
    → sum (dashboard_counts now period events)
      ≡ count_between ax.start (ax.start + ax.num_points * ax.interval) events
unfolding dashboard_counts
sum-dashboard_counts now period events ax e =
    rw
      (
        e,
        sum-bucket_counts ax (hourly_events events []) 0 ax.num_points,
        zero-mul ax.interval,
        add-zero ax.start,
        count_in-hourly_events ax.start (ax.start + ax.num_points * ax.interval) events [],
      )
      (add-zero _)

count_between-total_count :
    (start end : ℕ) (events : List EventsPerHour)
    → All (λ (e : EventsPerHour). (start ≤ truncate e.ts hour) × (e.ts < end)) events
    → count_between start end events ≡ total_count events
unfolding count_between total_count
count_between-total_count start end [] h = refl
count_between-total_count start end (e ∷ es) ((from, to), h) =
    rw
      (
        le→leb start (truncate e.ts hour) from,
        lt→ltb (truncate e.ts hour) end (omega (arith, to)),
        count_between-total_count start end es h,
      )
      refl

All-map :
    {P Q : EventsPerHour → Type 0}
    → ((e : EventsPerHour) → P e → Q e)
    → (es : List EventsPerHour) → All P es
    → All Q es
All-map f [] h = tt
All-map f (e ∷ es) (p, h) = (f e p, All-map f es h)

-- With a period of at most 99 days, the counts of the chart add up to those of the events, if these
-- are before now and of the hours from the start of the period on.
pub sum-dashboard_counts-total :
    (now : ℕ) (period : Bytes) (events : List EventsPerHour)
    → pos_part (period_duration period) ≤ 99 * day
    → All
        (λ (e : EventsPerHour).
          (start_time now (period_duration period) ≤ truncate e.ts hour) × (e.ts < now))
        events
    → sum (dashboard_counts now period events) ≡ total_count events
unfolding axis
sum-dashboard_counts-total now period events short recent =
    let d = period_duration period in
    let from = start_time now d in
    let i = interval_of d in
    let start = truncate from i in
    let (positive, at_most, behind, far) = near_now now d short in
    let (few, ahead) = covers now from i positive at_most behind far in
    sum-dashboard_counts now period events _ (limited-fine start (sub (end_time now i) start) i few)
    ∙ count_between-total_count start (start + sub (end_time now i) start / i * i) events (
        All-map
          (λ e (first, last).
            (omega (arith, first, div-mul-le_self from i), omega (arith, last, ahead)))
          events recent)
