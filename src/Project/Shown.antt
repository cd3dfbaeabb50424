-- ===== src/Project/Shown.antt =====
-- What the page of an issue shows of an event that internal/svc/event/event.go stored.
use warnly.Base.{
  ℕ, ◌≤◌, ◌≡◌, refl, ap, ◌∙◌, flat_map, some, List, [], ◌∷◌, ◌++◌, map, ◌==◌, ltb, length,
  length-take, append-nil, take-append-drop, Bool-cases, inl, inr, arith,
}
use mathlib.Core.List.{reverse}
use warnly.Event.Body.{Exception, Frame, EventBody, EventClickhouse}
use warnly.Event.Row.{Library, RowContext, row_of}
use warnly.Event.Aligned.{stored_frames, row_of-frames, length-flags_or}
use warnly.Event.Frames.{get_thread_frames}
use warnly.Project.Types.{IssueEvent}
use warnly.Project.Stack.{
  StackDetail, details_of, reversed, get_stack_details, stack_visible, stack_hidden,
}

-- The details show the frames.
abbrev pub IsStackOf : List Frame → List StackDetail → Type 0
IsStackOf fs details =
    (map (λ (d : StackDetail). d.filepath) details ≡ map (λ (f : Frame). f.abs_path) fs)
    × (map (λ (d : StackDetail). d.function_name) details ≡ map (λ (f : Frame). f.function) fs)
    × (map (λ (d : StackDetail). d.line_no) details ≡ map (λ (f : Frame). f.line_no) fs)

details_of-frames :
    (fs : List Frame) (in_app : List ℕ)
    → length in_app ≡ length fs
    → (details : List StackDetail) × (details_of
          (map (λ (f : Frame). f.abs_path) fs)
          (map (λ (f : Frame). f.function) fs)
          (map (λ (f : Frame). f.line_no) fs)
          in_app
        ≡ some details)
      × IsStackOf fs details
unfolding details_of
details_of-frames [] in_app e = ([], refl, (refl, refl, refl))
details_of-frames (f ∷ fs) [] e = absurd (omega (arith, e))
details_of-frames (f ∷ fs) (a ∷ more) e =
    let (details, read, (paths, functions, lines)) = details_of-frames fs more (omega (arith, e)) in
    (
      record {
        filepath = f.abs_path;
        function_name = f.function;
        line_no = f.line_no;
        in_app = a == 1;
      }
          ∷ details,
      rw read refl,
      (
        ap (λ t. f.abs_path ∷ t) paths,
        ap (λ t. f.function ∷ t) functions,
        ap (λ t. f.line_no ∷ t) lines,
      ),
    )

-- The event has the frame columns of the row.
abbrev pub IsReadFrom : EventClickhouse → IssueEvent → Type 0
IsReadFrom ev e =
    (e.exception_frames_abs_path ≡ ev.exception_frames_abs_path)
    × (e.exception_frames_function ≡ ev.exception_frames_function)
    × (e.exception_frames_lineno ≡ ev.exception_frames_line_no)
    × (e.exception_frames_in_app ≡ ev.exception_frames_in_app)

-- An event that was made into a row, and is read with the row's frame columns, is shown without a
-- panic, by its frames with the last one first: their paths, functions and lines.
pub get_stack_details-stored :
    {V : Type 0} (lib : Library V) (event : EventBody V) (at : RowContext) (ev : EventClickhouse)
    (e : IssueEvent)
    → row_of lib event at ≡ some ev
    → IsReadFrom ev e
    → (details : List StackDetail) × (get_stack_details e ≡ some (reverse details))
      × IsStackOf (stored_frames event) details
unfolding get_stack_details
get_stack_details-stored lib event at ev e made (paths, functions, lines, in_app) =
    let (functions_shown, paths_shown, _, lines_shown, _, flags) =
      row_of-frames lib event at ev made in
    let (details, read, stack) =
      details_of-frames (stored_frames event) ev.exception_frames_in_app (
        ap length flags
        ∙ length-flags_or (flat_map (λ (x : Exception). x.frames) event.exception)
            (get_thread_frames event.threads)) in
    (
      details,
      rw (paths, functions, lines, in_app, paths_shown, functions_shown, lines_shown)
          (ap reversed read),
      stack,
    )

-- What is visible of a stack and what is hidden are the stack, and at most five frames are visible.
pub stack_visible-hidden :
    (details : List StackDetail)
    → (stack_visible details ++ stack_hidden details ≡ details)
      × (length (stack_visible details) ≤ 5)
unfolding stack_visible stack_hidden
stack_visible-hidden details = elim (Bool-cases (ltb 5 (length details))) [
  | inl long ↦ rw long (take-append-drop 5 details, omega (arith, length-take 5 details))
  | inr short ↦ rw short (append-nil details, ground (arith, short))
]
