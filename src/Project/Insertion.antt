-- ===== src/Project/Insertion.antt =====
-- An insertion sort, which keeps what `slices.SortFunc` promises.
use warnly.Base.{◌≡◌, refl, false, List, [], ◌∷◌, Bool-cases, inl, inr, if◌then◌else◌}
use mathlib.Core.List.{Permᴰ}
use mathlib.Core.List.Permᴰ
use warnly.Project.Types.{IssueEntry}
use warnly.Project.Order.{Compare, is_negative, IsOrder, IsAscending, IsSortFunc}

unfoldable pub insert_by : Compare → IssueEntry → List IssueEntry → List IssueEntry
insert_by cmp e [] = e ∷ []
insert_by cmp e (x ∷ xs) =
    let rest = insert_by cmp e xs in if is_negative (cmp x e) then x ∷ rest else e ∷ x ∷ xs

unfoldable pub insertion_sort : Compare → List IssueEntry → List IssueEntry
unfolding insert_by
insertion_sort cmp [] = []
insertion_sort cmp (e ∷ es) = insert_by cmp e (insertion_sort cmp es)

module _ (cmp : Compare) (order : IsOrder cmp) where
  insert_behind :
      (e x : IssueEntry) (xs : List IssueEntry)
      → is_negative (cmp e x) ≡ false
      → IsAscending cmp (x ∷ xs)
      → IsAscending cmp (x ∷ insert_by cmp e xs)
  unfolding insert_by
  insert_behind e x [] h s = (h, tt)
  insert_behind e x (y ∷ ys) h (first, rest) = elim (Bool-cases (is_negative (cmp y e))) [
    | inl later ↦ rw later (first, insert_behind e y ys (order.0 y e later) rest)
    | inr before ↦ rw before (h, (before, rest))
  ]

  insert_by-IsAscending :
      (e : IssueEntry) (xs : List IssueEntry)
      → IsAscending cmp xs
      → IsAscending cmp (insert_by cmp e xs)
  unfolding insert_by
  insert_by-IsAscending e [] s = tt
  insert_by-IsAscending e (x ∷ xs) s = elim (Bool-cases (is_negative (cmp x e))) [
    | inl later ↦ rw later (insert_behind e x xs (order.0 x e later) s)
    | inr before ↦ rw before (before, s)
  ]

  insert_by-Perm : (e : IssueEntry) (xs : List IssueEntry) → Permᴰ (insert_by cmp e xs) (e ∷ xs)
  unfolding insert_by
  insert_by-Perm e [] = Permᴰ.refl (e ∷ [])
  insert_by-Perm e (x ∷ xs) = elim (Bool-cases (is_negative (cmp x e))) [
    | inl later ↦
        rw later (Permᴰ.trans (Permᴰ.cons refl (insert_by-Perm e xs)) (Permᴰ.swap refl refl))
    | inr before ↦ rw before (Permᴰ.refl (e ∷ x ∷ xs))
  ]

  sorted :
      (es : List IssueEntry)
      → IsAscending cmp (insertion_sort cmp es) × Permᴰ (insertion_sort cmp es) es
  unfolding insertion_sort
  sorted [] = (tt, Permᴰ.nil)
  sorted (e ∷ es) =
      let (ascending, perm) = sorted es in
      (
        insert_by-IsAscending e (insertion_sort cmp es) ascending,
        Permᴰ.trans (insert_by-Perm e (insertion_sort cmp es)) (Permᴰ.cons refl perm),
      )

pub insertion_sort-IsSortFunc : IsSortFunc insertion_sort
insertion_sort-IsSortFunc = sorted
