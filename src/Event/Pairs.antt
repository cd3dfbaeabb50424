-- ===== src/Event/Pairs.antt =====
-- The parallel columns of tags and contexts as lists of pairs.
use warnly.Base.{
  ◌==◌, ◌≡◌, refl, sym, subst, ◌∙◌, Bool, true, false, not, ◌&&◌, Option, none, some, List, [], ◌∷◌,
  ◌++◌, map, Bytes, text, is_empty, length, length-append, filter, Bool-cases, Option-cases, inl,
  inr, append_assoc, append-nil, arith,
}
use warnly.Event.Frames.{get_thread_frames}
use warnly.Event.Body.{Frame, EventBody, EventClickhouse, Extra}
use warnly.Base.Int.{ℤ}
use warnly.Event.Row.{
  is_zero, Library, Kv, empty_kv, push, push_if, push_tags, make_tags, make_user, push_number,
  extra_text, push_extra, push_contexts, make_contexts, with_contexts, with_frames, set_frames,
  populate_thread_frames, exception_row, RowContext, row_of,
}

-- A tag that has a name and a value.
abbrev pub is_kept : Bytes × Bytes → Bool
is_kept p = not (is_empty p.0) && not (is_empty p.1)

-- The tags of an event: its own attributes first.
abbrev pub tags_of : {V : Type 0} → EventBody V → List (Bytes × Bytes)
tags_of event = filter is_kept (
    (text "env", event.environment)
    ∷ (text "level", event.level)
    ∷ (text "release", event.release)
    ∷ (text "server_name", event.server_name)
    ∷ (text "user", make_user event.user)
    ∷ event.tags)

abbrev pub Holds : List (Bytes × Bytes) → Kv → Type 0
Holds ps kv = (kv.keys ≡ map (λ p. p.0) ps) × (kv.values ≡ map (λ p. p.1) ps)

push_tags_lem :
    (tags : List (Bytes × Bytes)) (kv : Kv)
    → ((push_tags tags kv).keys ≡ kv.keys ++ map (λ p. p.0) (filter is_kept tags))
      × ((push_tags tags kv).values ≡ kv.values ++ map (λ p. p.1) (filter is_kept tags))
unfolding push_tags
push_tags_lem [] kv = (sym (append-nil _), sym (append-nil _))
push_tags_lem ((k, v) ∷ tags) kv = elim (Bool-cases (is_kept (k, v))) [
  | inl kept ↦
      let (a, b) = push_tags_lem tags (push k v kv) in
      rw (push_tags, kept)
        (a ∙ append_assoc kv.keys (k ∷ []) _, b ∙ append_assoc kv.values (v ∷ []) _)
  | inr dropped ↦ rw (push_tags, dropped) (push_tags_lem tags kv)
]

make_tags-push_tags :
    {V : Type 0} (event : EventBody V)
    → make_tags event
      ≡ push_tags
          ((text "env", event.environment)
            ∷ (text "level", event.level)
            ∷ (text "release", event.release)
            ∷ (text "server_name", event.server_name)
            ∷ (text "user", make_user event.user)
            ∷ event.tags)
          empty_kv
unfolding make_tags push_tags make_user
make_tags-push_tags event = elim (Bool-cases (is_empty event.user.id)) [
  | inl anonymous ↦ rw anonymous refl
  | inr known ↦ rw known refl
]

make_tags_lem : {V : Type 0} (event : EventBody V) → Holds (tags_of event) (make_tags event)
make_tags_lem event = rw (make_tags-push_tags event) (push_tags_lem _ empty_kv)

some_inj : {A : Type 0} {x y : A} → some x ≡ some y → x ≡ y
some_inj h = cc

IsAligned : Kv → Type 0
IsAligned kv = length kv.keys ≡ length kv.values

empty-IsAligned : IsAligned empty_kv
unfolding IsAligned
empty-IsAligned = refl

push_if-IsAligned : (b : Bool) (k v : Bytes) (kv : Kv) → IsAligned kv → IsAligned (push_if b k v kv)
unfolding IsAligned
push_if-IsAligned true k v kv h =
    omega (arith, h, length-append kv.keys (k ∷ []), length-append kv.values (v ∷ []))
push_if-IsAligned false k v kv h = h

abbrev named : Bytes → Bytes → Bool × Bytes × Bytes
named k v = (not (is_empty v), k, v)

abbrev counted : {V : Type 0} → Library V → Bytes → ℤ → Bool × Bytes × Bytes
counted lib k n = (not (is_zero n), k, lib.itoa n)

abbrev push_all : List (Bool × Bytes × Bytes) → Kv → Kv
push_all [] kv = kv
push_all ((b, k, v) ∷ rest) kv = push_all rest (push_if b k v kv)

push_all-IsAligned :
    (ps : List (Bool × Bytes × Bytes)) (kv : Kv) → IsAligned kv → IsAligned (push_all ps kv)
push_all-IsAligned [] kv h = h
push_all-IsAligned ((b, k, v) ∷ ps) kv h =
    push_all-IsAligned ps (push_if b k v kv) (push_if-IsAligned b k v kv h)

-- The columns of pairs of a row.
abbrev pub HoldsPairs : List (Bytes × Bytes) → EventClickhouse → Type 0
HoldsPairs tags ev =
    (ev.tags_key ≡ map (λ p. p.0) tags)
    × (ev.tags_value ≡ map (λ p. p.1) tags)
    × (length ev.contexts_key ≡ length ev.contexts_value)

set_frames_pairs :
    (tags : List (Bytes × Bytes)) (fs : List Frame) (ev : EventClickhouse)
    → HoldsPairs tags ev
    → HoldsPairs tags (set_frames fs ev)
unfolding set_frames
set_frames_pairs tags [] ev h = h
set_frames_pairs tags (f ∷ fs) ev h = h

module _ {V : Type 0} (lib : Library V) where
  context_entries : EventBody V → List (Bool × Bytes × Bytes)
  context_entries event =
      named (text "user.ip") event.user.ip_address
      ∷ named (text "device.arch") event.contexts.device.arch
      ∷ counted lib (text "device.num_cpu") event.contexts.device.num_cpu
      ∷ named (text "runtime.name") event.contexts.runtime.name
      ∷ named (text "runtime.version") event.contexts.runtime.version
      ∷ counted lib (text "runtime.go_maxprocs") event.contexts.runtime.go_max_procs
      ∷ counted lib (text "runtime.go_numcgocalls") event.contexts.runtime.go_num_cgo_calls
      ∷ counted lib (text "runtime.go_numroutines") event.contexts.runtime.go_num_routines
      ∷ named (text "os.name") event.contexts.os_name
      ∷ []

  push_contexts-push_all :
      (event : EventBody V) → push_contexts lib event ≡ push_all (context_entries event) empty_kv
  unfolding push_contexts push_number context_entries
  push_contexts-push_all event = refl

  push_contexts-IsAligned : (event : EventBody V) → IsAligned (push_contexts lib event)
  push_contexts-IsAligned event =
      rw (push_contexts-push_all event)
        (push_all-IsAligned (context_entries event) empty_kv empty-IsAligned)

  push_extra-IsAligned :
      (extra : List (Bytes × Extra V)) (kv kv' : Kv)
      → IsAligned kv
      → push_extra lib extra kv ≡ some kv'
      → IsAligned kv'
  unfolding push_extra
  push_extra-IsAligned [] kv kv' h e = subst IsAligned (some_inj e) h
  push_extra-IsAligned ((k, v) ∷ extra) kv kv' h e = elim (Option-cases (extra_text lib v)) [
    | inl refused ↦ cc (
        subst
          (λ o.
            elim o [ none ↦ none | some s ↦ push_extra lib extra (push (text "extra." ++ k) s kv) ]
            ≡ some kv')
          refused e)
    | inr (s, made) ↦
        push_extra-IsAligned extra (push (text "extra." ++ k) s kv) kv'
          (push_if-IsAligned true (text "extra." ++ k) s kv h)
          (subst
            (λ o.
              elim o [
                | none ↦ none
                | some s ↦ push_extra lib extra (push (text "extra." ++ k) s kv)
              ]
              ≡ some kv')
            made e)
  ]

  with_frames_pairs :
      (event : EventBody V) (ev : EventClickhouse)
      → HoldsPairs (tags_of event) ev
      → HoldsPairs (tags_of event) (with_frames event ev)
  unfolding with_frames populate_thread_frames
  with_frames_pairs event ev h = elim (Bool-cases (length ev.exception_frames_function == 0)) [
    | inl none_yet ↦
        rw none_yet (set_frames_pairs (tags_of event) (get_thread_frames event.threads) ev h)
    | inr there ↦ rw there h
  ]

  with_contexts_pairs :
      (event : EventBody V) (at : RowContext) (o : Option Kv) (ev : EventClickhouse)
      → ((kv : Kv) → o ≡ some kv → IsAligned kv)
      → with_contexts lib event at o ≡ some ev
      → HoldsPairs (tags_of event) ev
  unfolding IsAligned exception_row
  with_contexts_pairs event at none ev aligned h = cc
  with_contexts_pairs event at (some kv) ev aligned h =
      let (k, v) = make_tags_lem event in
      subst (HoldsPairs (tags_of event)) (some_inj h)
        (with_frames_pairs event (exception_row lib event at kv) (k, v, aligned kv refl))

  -- Of a stored row, the two columns of tags hold, in order, the names and the values of the same
  -- tags: environment, level, release, server and user, then the event's own, each where neither
  -- part is empty. The two columns of contexts are of one length.
  pub row_of-pairs :
      (event : EventBody V) (at : RowContext) (ev : EventClickhouse)
      → row_of lib event at ≡ some ev
      → HoldsPairs (tags_of event) ev
  unfolding row_of make_contexts
  row_of-pairs event at ev h =
      with_contexts_pairs event at (make_contexts lib event) ev
        (λ kv e.
          push_extra-IsAligned event.extra (push_contexts lib event) kv
            (push_contexts-IsAligned event) e)
        h
