-- ===== src/Project/Order.antt =====
-- The list that `buildIssueList` and `listIssueEntries` sort.
use warnly.Base.{
  ◌/◌, ◌^◌, ◌≤◌, ◌<◌, ◌≡◌, ◌⊎◌, Bool, true, false, List, [], ◌∷◌, ◌==◌, arith, ℕ, if◌then◌else◌,
}
use warnly.Base.Int.{ℤ, pos, negsuc}
use mathlib.Core.List.{Permᴰ}
use warnly.Project.Types.{ProjectService, IssueEntry}
use warnly.Project.Entries.{unix, compare_ℕ, compare_entries, sort_entries}

abbrev pub is_negative : ℤ → Bool
is_negative (pos n) = false
is_negative (negsuc n) = true

abbrev pub Compare : Type 0
Compare = IssueEntry → IssueEntry → ℤ

-- A comparison that `slices.SortFunc` asks for: to be less is a strict weak order.
abbrev pub IsOrder : Compare → Type 0
IsOrder cmp =
    ((a b : IssueEntry) → is_negative (cmp a b) ≡ true → is_negative (cmp b a) ≡ false)
    × ((a b c : IssueEntry)
        → is_negative (cmp a b) ≡ false
        → is_negative (cmp b c) ≡ false
        → is_negative (cmp a c) ≡ false)

-- No entry is less than the one before it.
abbrev pub IsAscending : Compare → List IssueEntry → Type 0
IsAscending cmp [] = Unit
IsAscending cmp (e ∷ []) = Unit
IsAscending cmp (e ∷ x ∷ xs) = (is_negative (cmp x e) ≡ false) × IsAscending cmp (x ∷ xs)

-- What `slices.SortFunc` promises for such a comparison.
abbrev pub IsSortFunc : (Compare → List IssueEntry → List IssueEntry) → Type 0
IsSortFunc sort =
    (cmp : Compare)
    → IsOrder cmp
    → (es : List IssueEntry) → IsAscending cmp (sort cmp es) × Permᴰ (sort cmp es) es

-- The most often seen issues first, and of those that were seen as often the latest, by the second.
abbrev pub IsListed : List IssueEntry → Type 0
IsListed [] = Unit
IsListed (e ∷ []) = Unit
IsListed (e ∷ x ∷ xs) =
    ((x.times_seen < e.times_seen)
      ⊎ ((x.times_seen ≡ e.times_seen) × (x.last_seen / 10 ^ 9 ≤ e.last_seen / 10 ^ 9)))
    × IsListed (x ∷ xs)

-- The comparison of two pairs of numbers, the first of which count before the second.
abbrev compare_pairs : ℕ → ℕ → ℕ → ℕ → ℤ
compare_pairs t u t2 u2 = if t == t2 then compare_ℕ u2 u else compare_ℕ t2 t

compare_pairs_asym :
    (t u t2 u2 : ℕ)
    → is_negative (compare_pairs t u t2 u2) ≡ true
    → is_negative (compare_pairs t2 u2 t u) ≡ false
compare_pairs_asym t u t2 u2 h = ground (arith, h)

compare_pairs_trans :
    (t u t2 u2 t3 u3 : ℕ)
    → is_negative (compare_pairs t u t2 u2) ≡ false
    → is_negative (compare_pairs t2 u2 t3 u3) ≡ false
    → is_negative (compare_pairs t u t3 u3) ≡ false
compare_pairs_trans t u t2 u2 t3 u3 h k = ground (arith, h, k)

compare_pairs_lem :
    (t u t2 u2 : ℕ)
    → is_negative (compare_pairs t2 u2 t u) ≡ false
    → (t2 < t) ⊎ ((t2 ≡ t) × (u2 ≤ u))
compare_pairs_lem t u t2 u2 h = ground (arith, h)

compare_entries-IsOrder : IsOrder compare_entries
unfolding compare_entries unix
compare_entries-IsOrder = (
  λ a b h. compare_pairs_asym a.times_seen (unix a.last_seen) b.times_seen (unix b.last_seen) h,
  λ a b c h k.
      compare_pairs_trans a.times_seen (unix a.last_seen) b.times_seen (unix b.last_seen)
        c.times_seen (unix c.last_seen) h k,
)

IsAscending-IsListed : (es : List IssueEntry) → IsAscending compare_entries es → IsListed es
unfolding compare_entries unix
IsAscending-IsListed [] h = tt
IsAscending-IsListed (e ∷ []) h = tt
IsAscending-IsListed (e ∷ x ∷ xs) (h, rest) = (
  compare_pairs_lem e.times_seen (unix e.last_seen) x.times_seen (unix x.last_seen) h,
  IsAscending-IsListed (x ∷ xs) rest,
)

-- Where `slices.SortFunc` sorts by every comparison that is a strict weak order, the sorted list has
-- the entries of the list, each as often, and of two that follow each other the first was seen more
-- often, or as often and in no earlier second.
pub sort_entries-IsListed_Perm :
    (svc : ProjectService)
    → IsSortFunc svc.sort_func
    → (es : List IssueEntry) → IsListed (sort_entries svc es) × Permᴰ (sort_entries svc es) es
unfolding sort_entries
sort_entries-IsListed_Perm svc sorts es =
    let (ascending, perm) = sorts compare_entries compare_entries-IsOrder es in
    (IsAscending-IsListed (svc.sort_func compare_entries es) ascending, perm)
