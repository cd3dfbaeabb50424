-- ===== src/Project/Stack.antt =====
-- What a page shows of the last event of an issue, of internal/warnly/project.go. A Go index out of
-- range panics: the functions that index one column by the length of another give none there.
use warnly.Base.{
  ℕ, Bool, Option, none, some, List, [], ◌∷◌, ◌++◌, if◌then◌else◌, ◌==◌, ltb, Bytes, text, bytes_eq,
  length, take, drop, filter,
}
use mathlib.Core.List.{reverse}
use warnly.Query.Parse.{set_key}
use warnly.Project.Types.{IssueEvent, FieldValueNum}

pub record StackDetail : Type 0 where
  pub filepath : Bytes
  pub function_name : Bytes
  pub line_no : ℕ
  pub in_app : Bool

-- The details of the frames in the order of the columns.
unfoldable pub details_of : List Bytes → List Bytes → List ℕ → List ℕ → Option (List StackDetail)
details_of [] functions lines in_app = some []
details_of (p ∷ ps) (f ∷ fs) (l ∷ ls) (a ∷ rest_in_app) = elim (details_of ps fs ls rest_in_app) [
  | none ↦ none
  | some rest ↦
      some (record { filepath = p; function_name = f; line_no = l; in_app = a == 1 } ∷ rest)
]
details_of (p ∷ ps) functions lines in_app = none

abbrev pub reversed : Option (List StackDetail) → Option (List StackDetail)
reversed none = none
reversed (some details) = some (reverse details)

unfoldable pub get_stack_details : IssueEvent → Option (List StackDetail)
unfolding details_of
get_stack_details event = reversed (
    details_of event.exception_frames_abs_path event.exception_frames_function
      event.exception_frames_lineno event.exception_frames_in_app)

unfoldable pub stack_visible : List StackDetail → List StackDetail
stack_visible details = if ltb 5 (length details) then take 5 details else details

unfoldable pub stack_hidden : List StackDetail → List StackDetail
stack_hidden details = if ltb 5 (length details) then drop 5 details else []

-- One of the values has no key.
unfoldable pub pairs_of : List Bytes → List Bytes → Option (List (Bytes × Bytes))
pairs_of keys [] = some []
pairs_of [] (v ∷ vs) = none
pairs_of (k ∷ ks) (v ∷ vs) = elim (pairs_of ks vs) [
  | none ↦ none
  | some rest ↦ some ((k, v) ∷ rest)
]

unfoldable pub tag_key_value : IssueEvent → Option (List (Bytes × Bytes))
unfolding pairs_of
tag_key_value event =
    if length event.tags_key == 0 then some [] else pairs_of event.tags_key event.tags_value

-- The last value of a key stays.
unfoldable pub contexts_from :
    List Bytes → List Bytes → List (Bytes × Bytes) → Option (List (Bytes × Bytes))
unfolding set_key
contexts_from [] values found = some found
contexts_from (k ∷ ks) [] found = none
contexts_from (k ∷ ks) (v ∷ vs) found = contexts_from ks vs (set_key k v found)

unfoldable pub contexts_map : IssueEvent → Option (List (Bytes × Bytes))
unfolding contexts_from
contexts_map event = contexts_from event.contexts_key event.contexts_value []

-- The value at the first place of the tag, no text where there is no such place.
unfoldable pub value_at_key : Bytes → List Bytes → List Bytes → Option Bytes
value_at_key key [] values = some []
value_at_key key (k ∷ ks) [] = if bytes_eq k key then none else value_at_key key ks []
value_at_key key (k ∷ ks) (v ∷ vs) = if bytes_eq k key then some v else value_at_key key ks vs

unfoldable pub tag_of : IssueEvent → Bytes → Option Bytes
unfolding value_at_key
tag_of event key = value_at_key key event.tags_key event.tags_value

unfoldable pub values_of_tag : Bytes → List FieldValueNum → List FieldValueNum
values_of_tag key values = filter (λ (v : FieldValueNum). bytes_eq v.tag key) values

unfoldable pub cut : Bytes → ℕ → Bytes
cut s n = if ltb n (length s) then take n s ++ text "..." else s
