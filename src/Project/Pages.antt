-- ===== src/Project/Pages.antt =====
-- The pages into which `ListIssues` and `GetProjectDetails` cut their lists.
use warnly.Base.{
  ℕ, zero, suc, ◌+◌, ◌-◌, ◌*◌, ◌%◌, ◌^◌, ◌≤◌, ◌<◌, ◌≡◌, refl, sym, ap, ◌∙◌, true, false, ◌||◌, List,
  [], ◌∷◌, ◌++◌, ◌==◌, leb, length, take, drop, take-append-drop, length-take, length-drop, lt→ltb,
  le→leb, leb→le, ◌⊎◌, ok, err, Bool-cases, inl, inr, arith,
}
use Prim.Native.Nat.{min}
use warnly.Base.Int.{pos, negsuc, ltb_ℤ}
use warnly.Db.Tables.{Db, panicked}
use warnly.Project.Types.{store}
use warnly.Project.Duration.{mul64, word, int64_of}
use warnly.Project.Types.{IssueEntry}
use warnly.Project.Entries.{add64, clamp, slice, paginate, limit_entries}

add64-pos : (a b : ℕ) → a + b < 2 ^ 63 → add64 (pos a) (pos b) ≡ pos (a + b)
unfolding add64
add64-pos a b h = ground arith

add_sub : (k : ℕ) → k + 1 - 1 ≡ k
add_sub k = omega arith

pub mod_small : (a : ℕ) → a < 2 ^ 64 → a % 2 ^ 64 ≡ a
mod_small a h = omega arith

pub mul64-pos : (a b : ℕ) → a < 2 ^ 64 → a * b < 2 ^ 63 → mul64 (pos a) b ≡ pos (a * b)
unfolding mul64 word int64_of
mul64-pos a b small h =
    rw
      (
        mul64,
        word,
        int64_of,
        mod_small a small,
        mod_small (a * b) (omega (arith, h)),
        lt→ltb (a * b) (2 ^ 63) h,
      )
      refl

drop-past : (k : ℕ) (list : List IssueEntry) → length list ≤ k → drop k list ≡ []
drop-past zero [] h = refl
drop-past zero (x ∷ list) h = ground (arith, h)
drop-past (suc k) [] h = refl
drop-past (suc k) (x ∷ list) h = drop-past k list (omega (arith, h))

take-nil : (n : ℕ) → take {A = IssueEntry} n [] ≡ []
take-nil zero = refl
take-nil (suc n) = refl

min_zero : (n : ℕ) → min 0 n ≡ 0
min_zero n = omega arith

min_nil : (n : ℕ) → min n 0 ≡ 0
min_nil n = omega arith

min-suc : (m n : ℕ) → min (suc m) (suc n) ≡ suc (min m n)
min-suc m n = omega arith

take-clamped : (n : ℕ) (list : List IssueEntry) → take (min n (length list)) list ≡ take n list
take-clamped zero list = rw (min_zero (length list)) refl
take-clamped (suc n) [] = rw (min_nil (suc n)) refl
take-clamped (suc n) (x ∷ list) =
    rw (min-suc n (length list)) (ap (λ xs. x ∷ xs) (take-clamped n list))

drop-nil : (n : ℕ) → drop {A = IssueEntry} n [] ≡ []
drop-nil zero = refl
drop-nil (suc n) = refl

zero_add : (n : ℕ) → 0 + n ≡ n
zero_add n = omega arith

suc_add : (k n : ℕ) → suc k + n ≡ suc (k + n)
suc_add k n = omega arith

drop-add : (k n : ℕ) (list : List IssueEntry) → drop (k + n) list ≡ drop n (drop k list)
drop-add zero n list = ap (λ m. drop m list) (zero_add n)
drop-add (suc k) n [] = ap (λ m. drop {A = IssueEntry} m []) (suc_add k n) ∙ sym (drop-nil n)
drop-add (suc k) n (x ∷ list) = ap (λ m. drop m (x ∷ list)) (suc_add k n) ∙ drop-add k n list

-- What stands on the page that begins at `k`.
abbrev pub IsPage : ℕ → ℕ → List IssueEntry → List IssueEntry → Type 0
IsPage k n list page = (length page ≤ n) × (take k list ++ (page ++ drop (k + n) list) ≡ list)

take-drop-IsPage : (k n : ℕ) (list : List IssueEntry) → IsPage k n list (take n (drop k list))
take-drop-IsPage k n list = (
  omega (arith, length-take n (drop k list)),
  rw (drop-add k n list, take-append-drop n (drop k list)) (take-append-drop k list),
)

min_left : (m n : ℕ) → m ≤ n → min m n ≡ m
min_left m n h = omega (arith, h)

min_right : (m n : ℕ) → n ≤ m → min m n ≡ n
min_right m n h = omega (arith, h)

le_total : (m n : ℕ) → (m ≤ n) ⊎ (n ≤ m)
le_total m n = elim (Bool-cases (leb m n)) [
  | inl e ↦ inl (leb→le m n e)
  | inr e ↦ inr (ground (arith, e))
]

past_or_before : (m n : ℕ) → (n ≤ m) ⊎ (m < n)
past_or_before m n = elim (Bool-cases (leb n m)) [
  | inl e ↦ inl (leb→le n m e)
  | inr e ↦ inr (ground (arith, e))
]

page_length :
    (k n : ℕ) (list : List IssueEntry)
    → k ≤ length list
    → min (k + n) (length list) - k ≡ min n (length (drop k list))
page_length k n list h = omega (arith, length-drop k list, h)

slice-within :
    (k n : ℕ) (list : List IssueEntry) (db : Db)
    → k ≤ length list
    → slice (pos k) (pos (min (k + n) (length list))) list db ≡ (ok (take n (drop k list)), db)
unfolding slice
slice-within k n list db h =
    rw
      (
        slice,
        le→leb k (min (k + n) (length list)) (omega (arith, h)),
        page_length k n list h,
        take-clamped n (drop k list),
      )
      refl

-- A slice that begins at the end.
slice-past :
    (k n : ℕ) (list : List IssueEntry) (db : Db)
    → length list ≤ k
    → slice (pos (length list)) (pos (length list)) list db ≡ (ok (take n (drop k list)), db)
unfolding slice
slice-past k n list db h =
    rw
      (
        slice,
        le→leb (length list) (length list) (omega arith),
        drop-past (length list) list (omega arith),
        drop-past k list h,
        take-nil (length list - length list),
        take-nil n,
      )
      refl

limited : (n : ℕ) → 0 < n → ltb_ℤ (pos 0) (pos n) ≡ true
limited n h = ground (arith, h)

slice-clamped :
    (k n : ℕ) (list : List IssueEntry) (db : Db)
    → slice (clamp (pos k) (length list)) (clamp (pos (k + n)) (length list)) list db
      ≡ (ok (take n (drop k list)), db)
unfolding clamp
slice-clamped k n list db = elim (le_total k (length list)) [
  | inl h ↦ rw (clamp, min_left k (length list) h) (slice-within k n list db h)
  | inr h ↦
      rw (clamp, min_right k (length list) h, min_right (k + n) (length list) (omega (arith, h)))
        (slice-past k n list db h)
]

-- With an offset and a positive limit that add up to an int64, `ListIssues` gives a page of at
-- most that many entries, which stand in the whole list right behind as many as the offset says.
pub limit_entries-IsPage :
    (k n : ℕ) (list : List IssueEntry) (db : Db)
    → 0 < n
    → k + n < 2 ^ 63
    → (page : List IssueEntry) × (limit_entries (pos k) (pos n) list db ≡ (ok page, db))
      × IsPage k n list page
unfolding limit_entries clamp slice
limit_entries-IsPage k n list db positive fits = (
  take n (drop k list),
  rw (limit_entries, limited n positive, add64-pos k n fits) (slice-clamped k n list db),
  take-drop-IsPage k n list,
)

-- What is tested of a page and its size, and where the page begins.
page_tests : (k n : ℕ) → 0 < n → ((k + 1 == 0) || (n == 0)) ≡ false
page_tests k n h = ground (arith, h)

page_start : (k n : ℕ) → k < 2 ^ 63 → k * n < 2 ^ 63 → mul64 (pos (k + 1 - 1)) n ≡ pos (k * n)
page_start k n small fits =
    ap (λ m. mul64 (pos m) n) (add_sub k) ∙ mul64-pos k n (omega (arith, small)) fits

begins_before : (a b : ℕ) → a < b → ltb_ℤ (pos a) (pos b) ≡ true
begins_before a b h = ground (arith, h)

begins_past : (a b : ℕ) → b ≤ a → ltb_ℤ (pos a) (pos b) ≡ false
begins_past a b h = ground (arith, h)

paginate-runs :
    (k n : ℕ) (list : List IssueEntry) (db : Db)
    → 0 < n
    → k < 2 ^ 63
    → k * n + n < 2 ^ 63
    → paginate list (pos (k + 1)) n db ≡ (ok (take n (drop (k * n) list)), db)
unfolding paginate clamp
paginate-runs k n list db positive small fits = elim (past_or_before (k * n) (length list)) [
  | inl h ↦
      rw
        (
          paginate,
          page_tests k n positive,
          page_start k n small (omega (arith, fits)),
          begins_past (k * n) (length list) h,
          drop-past (k * n) list h,
          take-nil n,
        )
        refl
  | inr h ↦
      rw
        (
          paginate,
          page_tests k n positive,
          page_start k n small (omega (arith, fits)),
          begins_before (k * n) (length list) h,
          add64-pos (k * n) n fits,
          clamp,
        )
        (slice-within (k * n) n list db (omega (arith, h)))
]

-- The page `k + 1` of `n` entries, where the place behind it is an int64, has at most `n` entries,
-- which stand in the whole list right behind the `k` pages before it.
pub paginate-IsPage :
    (k n : ℕ) (list : List IssueEntry) (db : Db)
    → 0 < n
    → k < 2 ^ 63
    → k * n + n < 2 ^ 63
    → (page : List IssueEntry) × (paginate list (pos (k + 1)) n db ≡ (ok page, db))
      × IsPage (k * n) n list page
unfolding paginate clamp slice
paginate-IsPage k n list db positive small fits = (
  take n (drop (k * n) list),
  paginate-runs k n list db positive small fits,
  take-drop-IsPage (k * n) n list,
)

-- With a negative offset and a positive limit `ListIssues` ends in a panic, whatever the list.
pub limit_entries_negative :
    (m n : ℕ) (list : List IssueEntry) (db : Db)
    → 0 < n
    → (limit_entries (negsuc m) (pos n) list db).0 ≡ err (store panicked)
unfolding limit_entries clamp slice
limit_entries_negative m n list db positive =
    rw (limit_entries, limited n positive, clamp, slice) refl
