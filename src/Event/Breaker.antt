-- ===== src/Event/Breaker.antt =====
-- Which frame names an issue's view, and which thread stands in for the exceptions.
use warnly.Base.{
  ◌≡◌, refl, sym, ap, subst, ◌∙◌, Bool, true, false, ◌&&◌, none, some, List, [], ◌∷◌, ◌++◌, map,
  if◌then◌else◌, All, get_last?, find?, any, Bool-cases, Option-cases, ◌⊎◌, inl, inr, arith,
}
use warnly.Event.Body.{Frame, Exception, Thread}
use warnly.Event.Frames.{
  get_module, is_ignored, label, last_own, breaker_of, get_breaker, has_frames, chosen_thread,
  with_module, get_thread_frames,
}

-- A frame of a module that the view leaves out.
abbrev pub IsLeftOut : Frame → Type 0
IsLeftOut f = is_ignored (get_module f) ≡ true

last_own-All : (fs : List Frame) → All IsLeftOut fs → last_own fs ≡ none
unfolding last_own
last_own-All [] h = refl
last_own-All (f ∷ fs) (k, h) = rw (last_own-All fs h, k) refl

last_own-append :
    (pre post : List Frame) (f : Frame)
    → is_ignored (get_module f) ≡ false
    → All IsLeftOut post
    → last_own (pre ++ f ∷ post) ≡ some f
unfolding last_own
last_own-append [] post f own h = rw (last_own-All post h, own) refl
last_own-append (g ∷ pre) post f own h = rw (last_own-append pre post f own h) refl

get_last?-append : {A : Type 0} (xs : List A) (x : A) → get_last? (xs ++ x ∷ []) ≡ some x
get_last?-append [] x = refl
get_last?-append (y ∷ []) x = refl
get_last?-append (y ∷ z ∷ xs) x = get_last?-append (z ∷ xs) x

breaker_of-append :
    (pre post : List Frame) (f : Frame)
    → last_own (pre ++ f ∷ post) ≡ some f
    → breaker_of (pre ++ f ∷ post) ≡ label f
unfolding breaker_of
breaker_of-append [] post f h = rw (h, breaker_of) refl
breaker_of-append (g ∷ pre) post f h = rw (h, breaker_of) refl

breaker_of-first :
    (f : Frame) (post : List Frame) → All IsLeftOut post → breaker_of (f ∷ post) ≡ label f
unfolding breaker_of last_own
breaker_of-first f post h = elim (Bool-cases (is_ignored (get_module f))) [
  | inl k ↦ rw (last_own-All post h, k, breaker_of, last_own) refl
  | inr k ↦ rw (last_own-All post h, k, breaker_of, last_own) refl
]

-- The view is of the last exception: it names the last frame whose module is not left out, or
-- where all are left out, the first frame.
pub get_breaker_lem :
    (es : List Exception) (e : Exception) (pre post : List Frame) (f : Frame)
    → e.frames ≡ pre ++ f ∷ post
    → All IsLeftOut post
    → (is_ignored (get_module f) ≡ false) ⊎ (pre ≡ [])
    → get_breaker (es ++ e ∷ []) ≡ label f
unfolding get_breaker
get_breaker_lem es e pre post f shape h (inl own) =
    rw (get_last?-append es e, shape, get_breaker)
      (breaker_of-append pre post f (last_own-append pre post f own h))
get_breaker_lem es e pre post f shape h (inr first) =
    rw (get_last?-append es e, shape, first, get_breaker) (breaker_of-first f post h)

some_inj : {A : Type 0} {x y : A} → some x ≡ some y → x ≡ y
some_inj h = cc

and_right : (a b : Bool) → (a && b) ≡ true → b ≡ true
and_right a b h = ground (arith, h)

find?-some : {A : Type 0} (p : A → Bool) (xs : List A) (x : A) → find? p xs ≡ some x → p x ≡ true
find?-some p [] x h = cc
find?-some p (y ∷ ys) x h = elim (Bool-cases (p y)) [
  | inl k ↦ ap p (sym (some_inj (subst (λ b. (if b then some y else find? p ys) ≡ some x) k h))) ∙ k
  | inr k ↦ find?-some p ys x (subst (λ b. (if b then some y else find? p ys) ≡ some x) k h)
]

find?-none : {A : Type 0} (p : A → Bool) (xs : List A) → find? p xs ≡ none → any p xs ≡ false
find?-none p [] h = refl
find?-none p (x ∷ xs) h = ground (arith, find?-none p xs)

-- The frames that stand in for the exceptions are none exactly where no thread has any, and
-- otherwise are those of one thread, each with its package for an empty module.
pub get_thread_frames_lem :
    (threads : List Thread)
    → ((any has_frames threads ≡ false) × (get_thread_frames threads ≡ []))
      ⊎ ((t : Thread) × (has_frames t ≡ true)
          × (chosen_thread threads ≡ some t)
          × (get_thread_frames threads ≡ map with_module t.frames))
unfolding get_thread_frames chosen_thread
get_thread_frames_lem threads =
    elim (Option-cases (find? (λ (t : Thread). t.current && has_frames t) threads)) [
      | inr (t, found) ↦ inr (
        t,
        and_right t.current (has_frames t)
            (find?-some (λ (x : Thread). x.current && has_frames x) threads t found),
        rw (found, get_thread_frames, chosen_thread) refl,
        rw (found, get_thread_frames, chosen_thread) refl,
      )
      | inl absent ↦ elim (Option-cases (find? has_frames threads)) [
        | inr (t, found) ↦ inr (
          t,
          find?-some has_frames threads t found,
          rw (absent, found, get_thread_frames, chosen_thread) refl,
          rw (absent, found, get_thread_frames, chosen_thread) refl,
        )
        | inl no_frames ↦ inl (
          find?-none has_frames threads no_frames,
          rw (absent, no_frames, get_thread_frames, chosen_thread) refl,
        )
      ]
    ]
