-- ===== src/Event/Aligned.antt =====
-- The columns of a stored row against the event: which frames, tags and contexts they hold.
use warnly.Base.{
  ℕ, suc, ◌≡◌, refl, sym, ap, subst, ◌∙◌, false, Option, none, some, List, [], ◌∷◌, ◌++◌, map,
  if◌then◌else◌, ◌==◌, length, length-map, flat_map, arith,
}
use warnly.Event.Body.{Frame, Exception, EventBody, EventClickhouse}
use warnly.Event.Frames.{
  get_exception_frames_abs_path, get_exception_frames_col_no, filename,
  get_exception_frames_filename, get_exception_frames_function, get_exception_frames_line_no,
  get_exception_frames_in_app, get_thread_frames, frame_column,
}
use warnly.Event.Row.{
  Library, Kv, make_contexts, populate_thread_frames, RowContext, exception_row, set_frames,
  with_frames, with_contexts, row_of,
}

-- The frames of all exceptions in their order, or those of a thread where there are none.
unfoldable pub frames_or : List Frame → List Frame → List Frame
frames_or [] thread = thread
frames_or (f ∷ fs) thread = f ∷ fs

-- What the column of flags says of these frames: 1 for each frame of the exceptions, and which frames
-- of the thread are in the app.
unfoldable pub flags_or : List Frame → List Frame → List ℕ
flags_or [] thread = map (λ (f : Frame). if f.in_app then 1 else 0) thread
flags_or (f ∷ fs) thread = map (λ (x : Frame). 1) (f ∷ fs)

abbrev pub stored_flags : {V : Type 0} → EventBody V → List ℕ
stored_flags event =
    flags_or (flat_map (λ (e : Exception). e.frames) event.exception)
      (get_thread_frames event.threads)

pub length-flags_or :
    (fs thread : List Frame) → length (flags_or fs thread) ≡ length (frames_or fs thread)
unfolding flags_or frames_or
length-flags_or [] thread = length-map _ thread
length-flags_or (f ∷ fs) thread = ap suc (length-map (λ (x : Frame). 1) fs)

abbrev pub stored_frames : {V : Type 0} → EventBody V → List Frame
stored_frames event =
    frames_or (flat_map (λ (e : Exception). e.frames) event.exception)
      (get_thread_frames event.threads)

map-append : {A B : Type 0} (f : A → B) (xs ys : List A) → map f (xs ++ ys) ≡ map f xs ++ map f ys
map-append f [] ys = refl
map-append f (x ∷ xs) ys = ap (λ t. f x ∷ t) (map-append f xs ys)

frame_column-map :
    {A : Type 0} (f : Frame → A) (es : List Exception)
    → frame_column f es ≡ map f (flat_map (λ (e : Exception). e.frames) es)
frame_column-map f [] = refl
frame_column-map f (e ∷ es) =
    rw (frame_column-map f es)
      (sym (map-append f e.frames (flat_map (λ (x : Exception). x.frames) es)))

some_inj : {A : Type 0} {x y : A} → some x ≡ some y → x ≡ y
some_inj h = cc

nonzero : (n m : ℕ) → n ≡ suc m → (n == 0) ≡ false
nonzero n m h = ground (arith, h)

-- The frame columns of a row are those of the given frames, with the given flags.
abbrev pub Shows : List Frame → List ℕ → EventClickhouse → Type 0
Shows fs flags ev =
    (ev.exception_frames_function ≡ map (λ (f : Frame). f.function) fs)
    × (ev.exception_frames_abs_path ≡ map (λ (f : Frame). f.abs_path) fs)
    × (ev.exception_frames_filename ≡ map (λ (f : Frame). filename f.abs_path) fs)
    × (ev.exception_frames_line_no ≡ map (λ (f : Frame). f.line_no) fs)
    × (ev.exception_frames_col_no ≡ map (λ (f : Frame). f.line_no) fs)
    × (ev.exception_frames_in_app ≡ flags)

module _ {V : Type 0} (lib : Library V) (event : EventBody V) (at : RowContext) where
  exception_row-Shows :
      (kv : Kv)
      → Shows
          (flat_map (λ (e : Exception). e.frames) event.exception)
          (map (λ (f : Frame). 1) (flat_map (λ (e : Exception). e.frames) event.exception))
          (exception_row lib event at kv)
  unfolding exception_row get_exception_frames_abs_path get_exception_frames_col_no
      get_exception_frames_filename get_exception_frames_function get_exception_frames_line_no
      get_exception_frames_in_app
  exception_row-Shows kv = (
    frame_column-map _ event.exception,
    frame_column-map _ event.exception,
    frame_column-map _ event.exception,
    frame_column-map _ event.exception,
    frame_column-map _ event.exception,
    frame_column-map _ event.exception,
  )

set_frames-Shows :
    (fs : List Frame) (ev : EventClickhouse)
    → Shows [] [] ev
    → Shows fs (map (λ (f : Frame). if f.in_app then 1 else 0) fs) (set_frames fs ev)
unfolding set_frames
set_frames-Shows [] ev h = h
set_frames-Shows (f ∷ fs) ev h = (refl, refl, refl, refl, refl, refl)

with_frames-Shows :
    {V : Type 0} (event : EventBody V) (fs : List Frame) (ev : EventClickhouse)
    → Shows fs (map (λ (f : Frame). 1) fs) ev
    → Shows
        (frames_or fs (get_thread_frames event.threads))
        (flags_or fs (get_thread_frames event.threads))
        (with_frames event ev)
unfolding flags_or frames_or with_frames populate_thread_frames
with_frames-Shows event [] ev h =
    rw (ap length h.0) (set_frames-Shows (get_thread_frames event.threads) ev h)
with_frames-Shows event (f ∷ fs) ev h =
    rw
      (nonzero (length ev.exception_frames_function) (length fs)
        (ap length h.0 ∙ ap suc (length-map (λ (x : Frame). x.function) fs)))
      h

module _ {V : Type 0} (lib : Library V) (event : EventBody V) (at : RowContext) where
  with_contexts_frames :
      (o : Option Kv) (ev : EventClickhouse)
      → with_contexts lib event at o ≡ some ev
      → Shows (stored_frames event) (stored_flags event) ev
  with_contexts_frames none ev h = cc
  with_contexts_frames (some kv) ev h =
      subst (Shows (stored_frames event) (stored_flags event)) (some_inj h)
        (with_frames-Shows event _ _ (exception_row-Shows lib event at kv))

  -- Of a stored row, every column of frames is read off the same list of frames, those of all
  -- exceptions in their order, or where the exceptions have none, those of the chosen thread; so
  -- the columns are of one length. The column of column numbers holds the line numbers; the column
  -- of flags is 1 for each frame of the exceptions, and of a thread says which frames are in the app.
  pub row_of-frames :
      (ev : EventClickhouse)
      → row_of lib event at ≡ some ev
      → Shows (stored_frames event) (stored_flags event) ev
  unfolding row_of
  row_of-frames ev h = with_contexts_frames (make_contexts lib event) ev h
