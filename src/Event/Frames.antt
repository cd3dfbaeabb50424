-- ===== src/Event/Frames.antt =====
-- What internal/warnly/envelope.go reads off an event's exceptions and threads.
use warnly.Base.{
  ℕ, Bool, true, false, not, ◌&&◌, ◌||◌, Option, none, some, List, [], ◌∷◌, ◌++◌, map,
  if◌then◌else◌, Bytes, text, bytes_eq, is_empty, contains_byte, after_last, flat_map, get_last?,
  find?,
}
use warnly.Event.Body.{Frame, Exception, Thread}

unfoldable pub get_module : Frame → Bytes
get_module f = if not (is_empty f.module_name) then f.module_name else f.package_name

unfoldable pub get_exception_stack_types : List Exception → List Bytes
get_exception_stack_types exceptions = map (λ (e : Exception). e.exception_type) exceptions

unfoldable pub get_exception_stack_values : List Exception → List Bytes
get_exception_stack_values exceptions = map (λ (e : Exception). e.value) exceptions

-- A column: one value for each frame of each exception.
abbrev pub frame_column : {A : Type 0} → (Frame → A) → List Exception → List A
frame_column f exceptions = flat_map (λ (e : Exception). map f e.frames) exceptions

unfoldable pub get_exception_frames_abs_path : List Exception → List Bytes
get_exception_frames_abs_path exceptions = frame_column (λ (f : Frame). f.abs_path) exceptions

unfoldable pub get_exception_frames_col_no : List Exception → List ℕ
get_exception_frames_col_no exceptions = frame_column (λ (f : Frame). f.line_no) exceptions

unfoldable pub filename : Bytes → Bytes
filename name = if contains_byte 47 name then after_last 47 name else name

unfoldable pub get_exception_frames_filename : List Exception → List Bytes
unfolding filename
get_exception_frames_filename exceptions =
    frame_column (λ (f : Frame). filename f.abs_path) exceptions

unfoldable pub get_exception_frames_function : List Exception → List Bytes
get_exception_frames_function exceptions = frame_column (λ (f : Frame). f.function) exceptions

unfoldable pub get_exception_frames_line_no : List Exception → List ℕ
get_exception_frames_line_no exceptions = frame_column (λ (f : Frame). f.line_no) exceptions

unfoldable pub get_exception_frames_in_app : List Exception → List ℕ
get_exception_frames_in_app exceptions = frame_column (λ f. 1) exceptions

-- `ignoredModules`.
unfoldable pub is_ignored : Bytes → Bool
is_ignored m =
    bytes_eq m (text "github.com/buger/jsonparser")
    || bytes_eq m (text "github.com/rs/zerolog")
    || bytes_eq m (text "github.com/getsentry/sentry-go")

unfoldable pub label : Frame → Bytes
unfolding get_module
label f = get_module f ++ text " in " ++ f.function

-- The loop from the last frame to the first.
unfoldable pub last_own : List Frame → Option Frame
unfolding get_module is_ignored
last_own [] = none
last_own (f ∷ fs) =
    let later = last_own fs in
    elim later [ none ↦ if is_ignored (get_module f) then none else some f | some g ↦ some g ]

unfoldable pub breaker_of : List Frame → Bytes
unfolding last_own label
breaker_of [] = []
breaker_of (f ∷ fs) = elim (last_own (f ∷ fs)) [ none ↦ label f | some g ↦ label g ]

unfoldable pub get_breaker : List Exception → Bytes
unfolding breaker_of
get_breaker exceptions = elim (get_last? exceptions) [ none ↦ [] | some e ↦ breaker_of e.frames ]

unfoldable pub get_exception_value : List Exception → Bytes → Bytes
get_exception_value exceptions default_val = elim (get_last? exceptions) [
  | none ↦ default_val
  | some e ↦ e.value
]

unfoldable pub get_exception_type : List Exception → Bytes → Bytes
get_exception_type exceptions default_val = elim (get_last? exceptions) [
  | none ↦ default_val
  | some e ↦
      if not (is_empty e.exception_type)
      then e.exception_type
      else if not (is_empty e.value)
      then text "Error"
      else default_val
]

abbrev pub has_frames : Thread → Bool
has_frames t = elim t.frames [ [] ↦ false | f ∷ fs ↦ true ]

-- The first current thread with frames, or else the first with frames.
unfoldable pub chosen_thread : List Thread → Option Thread
chosen_thread threads = elim (find? (λ (t : Thread). t.current && has_frames t) threads) [
  | none ↦ find? has_frames threads
  | some t ↦ some t
]

unfoldable pub with_module : Frame → Frame
with_module f =
    if is_empty f.module_name && not (is_empty f.package_name)
    then record f { module_name = f.package_name }
    else f

unfoldable pub get_thread_frames : List Thread → List Frame
unfolding chosen_thread with_module
get_thread_frames threads = elim (chosen_thread threads) [
  | none ↦ []
  | some t ↦ map with_module t.frames
]
