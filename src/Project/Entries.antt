-- ===== src/Project/Entries.antt =====
-- The lists of issues of internal/svc/project/project.go: built, sorted, cut into pages.
use warnly.Base.{
  ℕ, ◌+◌, ◌-◌, ◌*◌, ◌/◌, ◌%◌, ◌^◌, ◌||◌, Option, none, some, List, [], ◌∷◌, map, if◌then◌else◌,
  ◌==◌, leb, ltb, find?, filter, length, take, drop, pure, fail, ◌>>=◌,
}
use Prim.Native.Nat.{min}
use warnly.Base.Int.{ℤ, pos, negsuc, pos_part, neg_part, sub_ℕ, ltb_ℤ, wrap64}
use warnly.Project.Duration.{mul64}
use warnly.Db.Tables.{Issue, panicked}
use warnly.Db.Board.{MessageCount, count_messages_by_ids}
use warnly.Project.Types.{
  ProjectService, IssueEntry, IssueMetrics, EventPerDay, P, store, from_store, ask, before,
}

unfoldable pub get_metrics : List IssueMetrics → ℕ → Option IssueMetrics
get_metrics metrics id = find? (λ (m : IssueMetrics). m.gid == id) metrics

-- An entry of `buildIssueList`.
unfoldable pub entry_of : Issue → IssueMetrics → IssueEntry
entry_of issue metric = record {
  last_seen = metric.last_seen;
  first_seen = metric.first_seen;
  error_type = issue.error_type;
  view = issue.view;
  message = issue.message;
  id = issue.id;
  times_seen = metric.times_seen;
  user_count = metric.user_count;
  project_id = issue.project_id;
  messages_count = 0;
}

abbrev pub cons_some : Option IssueEntry → List IssueEntry → List IssueEntry
cons_some none rest = rest
cons_some (some e) rest = e ∷ rest

-- The loop over the issues: those without metrics are left out.
unfoldable pub entries :
    (Issue → IssueMetrics → IssueEntry) → List IssueMetrics → List Issue → List IssueEntry
unfolding get_metrics
entries make metrics [] = []
entries make metrics (i ∷ is) =
    let rest = entries make metrics is in
    elim (get_metrics metrics i.id) [ none ↦ rest | some m ↦ make i m ∷ rest ]

unfoldable pub unix : ℕ → ℕ
unix t = t / 10 ^ 9

-- `cmp.Compare`.
abbrev pub compare_ℕ : ℕ → ℕ → ℤ
compare_ℕ a b = if ltb a b then negsuc 0 else (if a == b then pos 0 else pos 1)

-- The comparison function of `buildIssueList` and `listIssueEntries`.
unfoldable pub compare_entries : IssueEntry → IssueEntry → ℤ
unfolding unix
compare_entries a b =
    if a.times_seen == b.times_seen
    then compare_ℕ (unix b.last_seen) (unix a.last_seen)
    else compare_ℕ b.times_seen a.times_seen

unfoldable pub add64 : ℤ → ℤ → ℤ
add64 a b = wrap64 (sub_ℕ (pos_part a + pos_part b) (neg_part a + neg_part b))

-- `min(n, len)`, for the bounds of a slice.
unfoldable pub clamp : ℤ → ℕ → ℤ
clamp (pos n) len = pos (min n len)
clamp (negsuc n) len = negsuc n

-- `list[start:end]` with an end that is at most the length: bounds out of order panic.
unfoldable pub slice : ℤ → ℤ → List IssueEntry → P (List IssueEntry)
slice (pos a) (pos b) list =
    if leb a b then pure (take (b - a) (drop a list)) else fail (store panicked)
slice a b list = fail (store panicked)

-- `paginate`: a page that is not positive is the whole list, as is a page size of 0.
unfoldable pub paginate : List IssueEntry → ℤ → ℕ → P (List IssueEntry)
unfolding mul64 add64 clamp slice
paginate list (negsuc n) page_size = pure list
paginate list (pos page) page_size =
    if page == 0 || page_size == 0
    then pure list
    else if ltb_ℤ (mul64 (pos (page - 1)) page_size) (pos (length list))
    then slice (mul64 (pos (page - 1)) page_size)
        (clamp (add64 (mul64 (pos (page - 1)) page_size) (pos page_size)) (length list)) list
    else pure []

-- The end of `ListIssues`: a limit that is not positive is no limit.
unfoldable pub limit_entries : ℤ → ℤ → List IssueEntry → P (List IssueEntry)
unfolding add64 clamp slice
limit_entries offset limit list =
    if ltb_ℤ (pos 0) limit
    then slice (clamp offset (length list)) (clamp (add64 offset limit) (length list)) list
    else pure list

unfoldable pub one_week : ℕ
one_week = 7 * 24 * 3600 * 10 ^ 9

-- `filterRecentIssues`.
unfoldable pub filter_recent_issues : List IssueEntry → ℕ → List IssueEntry
unfolding one_week
filter_recent_issues list now =
    filter (λ (e : IssueEntry). ltb (before (pos one_week) now) e.first_seen) list

-- The inner loop of `populateMessagesCount`: the first entry of the issue.
unfoldable pub set_count : MessageCount → List IssueEntry → List IssueEntry
set_count c [] = []
set_count c (e ∷ es) =
    let rest = set_count c es in
    if c.issue_id == e.id then record e { messages_count = c.message_count } ∷ es else e ∷ rest

unfoldable pub set_counts : List MessageCount → List IssueEntry → List IssueEntry
unfolding set_count
set_counts [] list = list
set_counts (c ∷ cs) list = set_counts cs (set_count c list)

-- `calculateTotalEvents`, on uint64.
unfoldable pub sum_counts : List EventPerDay → ℕ
sum_counts [] = 0
sum_counts (e ∷ es) = (e.count + sum_counts es) % 2 ^ 64

unfoldable pub calculate_total_events : List EventPerDay → ℕ × ℕ
unfolding sum_counts
calculate_total_events [] = (0, 0)
calculate_total_events (e ∷ es) = (sum_counts (e ∷ es), e.count)

module _ (svc : ProjectService) where
  unfoldable pub sort_entries : List IssueEntry → List IssueEntry
  unfolding compare_entries
  sort_entries list = svc.sort_func compare_entries list

  unfoldable pub metrics_of : List ℕ → List Issue → ℕ → ℕ → P (List IssueMetrics)
  metrics_of project_ids issues from to = ask (
      svc.analytics.list_issue_metrics (record {
        from = from;
        to = to;
        project_ids = project_ids;
        group_ids = map (λ (i : Issue). i.id) issues;
      }))

  unfoldable pub build_issue_list : List ℕ → List Issue → ℕ → ℕ → P (List IssueEntry)
  unfolding metrics_of entries entry_of sort_entries
  build_issue_list project_ids issues from to = do
    metrics ← metrics_of project_ids issues from to
    pure (sort_entries (entries entry_of metrics issues))

  -- The same with one project, which the entries do not name.
  unfoldable pub list_issue_entries : ℕ → List Issue → ℕ → ℕ → P (List IssueEntry)
  unfolding metrics_of entries entry_of sort_entries
  list_issue_entries project_id issues from to = do
    metrics ← metrics_of (project_id ∷ []) issues from to
    pure (sort_entries (entries (λ i m. record (entry_of i m) { project_id = 0 }) metrics issues))

  unfoldable pub populate_messages_count : List IssueEntry → P (List IssueEntry)
  unfolding set_counts
  populate_messages_count list = do
    counts ← from_store (count_messages_by_ids svc.env (map (λ (e : IssueEntry). e.id) list))
    pure (set_counts counts list)
