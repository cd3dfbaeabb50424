-- ===== src/Project/Window.antt =====
-- The window that `DashboardDataForPeriod` cuts into buckets.
use warnly.Base.{
  ℕ, ◌+◌, ◌-◌, ◌*◌, ◌/◌, ◌^◌, ◌≤◌, ◌<◌, ◌≡◌, refl, sym, false, if◌then◌else◌, ltb, inl, inr,
  Bool-cases, arith,
}
use Prim.Native.Nat.{min}
use native.Mathlib.Nat.{
  add-mul, one-mul, div-add-mod', div-mul-le_self, lt-div-mul-add, mul-div_cancel,
  le-div_iff_mul-le, lt_of_mul-lt-mul_right, mul-le-mul_right,
}
use warnly.Base.Int.{ℤ, pos, negsuc, pos_part}
use warnly.Project.Types.{before}
use warnly.Project.Dashboard.{
  day, truncate, interval_of, next_hour, start_before, start_time, end_time, sub, limited,
}

-- An interval of `limited` that is not stretched.
not_over : (n : ℕ) → n ≤ 100 → ltb 100 n ≡ false
not_over n h = ground (arith, h)

pub limited-fine :
    (start length interval : ℕ)
    → length / interval ≤ 100
    → limited start length interval
      ≡ record { start = start; interval = interval; num_points = length / interval }
unfolding limited
limited-fine start length interval h = rw (not_over (length / interval) h) refl

truncate-multiple : (t i : ℕ) → truncate t i ≡ t / i * i
truncate-multiple t i = omega (arith, div-add-mod' t i)

next_hour-lt : (now : ℕ) → now < next_hour now
next_hour-lt now = omega arith

end_time-truncated :
    (now i t : ℕ)
    → truncate (next_hour now) i ≡ t
    → end_time now i ≡ (if ltb t now then t + i else t)
unfolding end_time
end_time-truncated now i t e = rw e refl

-- The end of the chart is a number of intervals, and comes within one interval of the next hour.
end_time-multiple :
    (now i : ℕ)
    → 0 < i
    → (q : ℕ) × (end_time now i ≡ q * i)
      × (next_hour now / i ≤ q)
      × (now ≤ q * i)
      × (q * i ≤ next_hour now + i)
end_time-multiple now i positive =
    let e0 = next_hour now in
    let below = div-mul-le_self e0 i in
    let above = lt-div-mul-add {a = e0} positive in
    let end = end_time-truncated now i (e0 / i * i) (truncate-multiple e0 i) in
    elim (Bool-cases (ltb (e0 / i * i) now)) [
      | inl past ↦ (
        e0 / i + 1,
        rw (end, past, add-mul (e0 / i) 1 i, one-mul i) refl,
        omega arith,
        rw (add-mul (e0 / i) 1 i, one-mul i) (omega (arith, above, next_hour-lt now)),
        rw (add-mul (e0 / i) 1 i, one-mul i) (omega (arith, below)),
      )
      | inr ahead ↦
          (e0 / i, rw (end, ahead) refl, omega arith, ground (arith, ahead), omega (arith, below))
    ]

-- The number of intervals between the truncated start and the end.
cut_evenly :
    (end start p r i : ℕ)
    → 0 < i
    → r * i < 2 ^ 63
    → start ≡ p * i
    → end ≡ (p + r) * i
    → sub end start / i ≡ r
cut_evenly end start p r i positive small e e2 =
    rw (e, e2, add-mul p r i, within (p * i) (r * i) small) (mul-div_cancel r positive)
  where
    within : (a b : ℕ) → b < 2 ^ 63 → min (a + b - a) (2 ^ 63 - 1) ≡ b
    within a b h = omega (arith, h)

pub covers :
    (now from i : ℕ)
    → 0 < i
    → i ≤ day
    → from ≤ next_hour now
    → next_hour now ≤ from + 99 * i
    → (sub (end_time now i) (truncate from i) / i ≤ 100)
      × (now ≤ truncate from i + sub (end_time now i) (truncate from i) / i * i)
covers now from i positive short behind near =
    let (q, end, later, ahead, close) = end_time-multiple now i positive in
    let p = from / i in
    let r = q - p in
    let whole : q ≡ p + r = omega (
      arith,
      (le-div_iff_mul-le {x = from / i} {y = next_hour now} positive).1
          (omega (arith, div-mul-le_self from i, behind)),
      later,
    ) in
    let whole_i : q * i ≡ p * i + r * i = rw (sym (add-mul p r i), sym whole) refl in
    let few : r < 101 =
      lt_of_mul-lt-mul_right i
        (omega (arith, whole_i, close, near, lt-div-mul-add {a = from} positive)) in
    let points : sub (end_time now i) (truncate from i) / i ≡ r =
      cut_evenly (end_time now i) (truncate from i) p r i positive
        (omega (arith, short, mul-le-mul_right i few)) (truncate-multiple from i)
        (rw (end, sym whole) refl) in
    rw (points, truncate-multiple from i) (omega (arith, few), omega (arith, whole_i, ahead))

abbrev Near : ℕ → ℤ → Type 0
unfolding interval_of
Near e0 d =
    (0 < interval_of d)
    × (interval_of d ≤ day)
    × (start_before e0 d ≤ e0)
    × (e0 ≤ start_before e0 d + 99 * interval_of d)

near : (e0 : ℕ) (d : ℤ) → pos_part d ≤ 99 * day → Near e0 d
unfolding Near interval_of before
near e0 (pos n) h = (ground (arith, h), ground (arith, h), ground (arith, h), ground (arith, h))
near e0 (negsuc n) h = (ground (arith, h), ground (arith, h), ground (arith, h), ground (arith, h))

start_time-before : (now : ℕ) (d : ℤ) → start_time now d ≡ start_before (next_hour now) d
unfolding start_time
start_time-before now d = refl

pub near_now :
    (now : ℕ) (d : ℤ)
    → pos_part d ≤ 99 * day
    → (0 < interval_of d)
      × (interval_of d ≤ day)
      × (start_time now d ≤ next_hour now)
      × (next_hour now ≤ start_time now d + 99 * interval_of d)
unfolding Near
near_now now d h = rw (start_time-before now d) (near (next_hour now) d h)
