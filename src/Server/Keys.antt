-- ===== src/Server/Keys.antt =====
-- The key that is read from the header `X-Sentry-Auth`.
use warnly.Base.{
  ◌≡◌, refl, ap, ◌∙◌, ℕ, ◌==◌, ==_refl, false, Bool-cases, inl, inr, Option, none, some, List, [],
  ◌∷◌, ◌++◌, Bytes, text, is_empty, contains_byte, join, All, arith,
}
use warnly.Event.Body.{EventBody}
use warnly.Event.Ingest.{EventService}
use warnly.Server.Ingest.{
  grown, split, cut_prefix, some_key, key_of_parts, project_key, key_of_header,
}

split-nonempty :
    (c : ℕ) (s : Bytes) → (part : Bytes) × (parts : List Bytes) × (split c s ≡ part ∷ parts)
unfolding split
split-nonempty c [] = ([], [], refl)
split-nonempty c (x ∷ s) =
    let (part, parts, e) = split-nonempty c s in
    elim (Bool-cases (x == c)) [
      | inl same ↦ ([], part ∷ parts, rw (e, same) refl)
      | inr other ↦ (x ∷ part, parts, rw (e, other) refl)
    ]

grown-other :
    (c x : ℕ) (part : Bytes) (parts : List Bytes)
    → x == c ≡ false
    → grown c x (part ∷ parts) ≡ (x ∷ part) ∷ parts
grown-other c x part parts h = rw h refl

not_first : (c x : ℕ) (s : Bytes) → contains_byte c (x ∷ s) ≡ false → x == c ≡ false
not_first c x s h = ground (arith, h)

not_later : (c x : ℕ) (s : Bytes) → contains_byte c (x ∷ s) ≡ false → contains_byte c s ≡ false
not_later c x s h = ground (arith, h)

split-plain : (c : ℕ) (s : Bytes) → contains_byte c s ≡ false → split c s ≡ s ∷ []
unfolding split
split-plain c [] h = refl
split-plain c (x ∷ s) h =
    ap (grown c x) (split-plain c s (not_later c x s h)) ∙ grown-other c x s [] (not_first c x s h)

split-append :
    (c : ℕ) (s t : Bytes) → contains_byte c s ≡ false → split c (s ++ c ∷ t) ≡ s ∷ split c t
unfolding split
split-append c [] t h = let (part, parts, e) = split-nonempty c t in rw (e, ==_refl c) refl
split-append c (x ∷ s) t h =
    ap (grown c x) (split-append c s t (not_later c x s h))
    ∙ grown-other c x s (split c t) (not_first c x s h)

-- Parts without the separator, joined by it, are split into these parts.
split-join :
    (c : ℕ) (part : Bytes) (parts : List Bytes)
    → All (λ p. contains_byte c p ≡ false) (part ∷ parts)
    → split c (join (c ∷ []) (part ∷ parts)) ≡ part ∷ parts
split-join c part [] (h, _) = split-plain c part h
split-join c part (next ∷ parts) (h, rest) =
    split-append c part (join (c ∷ []) (next ∷ parts)) h
    ∙ ap (λ ps. part ∷ ps) (split-join c next parts rest)

module _ {V : Type 0} (svc : EventService V) (unmarshal : Bytes → Option (EventBody V))
    (new_id : Bytes) where
  unfoldable pub key_of_part : Bytes → Option Bytes
  unfolding cut_prefix
  key_of_part part = cut_prefix (text "sentry_key=") (svc.texts.trim_space part)

  -- No comma, and no key.
  unfoldable pub IsOtherPart : Bytes → Type 0
  unfolding key_of_part
  IsOtherPart p = (contains_byte b',' p ≡ false) × (key_of_part p ≡ none)

  key_of_parts-found :
      (before : List Bytes) (part : Bytes) (after : List Bytes) (key : Bytes)
      → All IsOtherPart before
      → key_of_part part ≡ some key
      → key_of_parts svc unmarshal new_id (before ++ part ∷ after) ≡ key
  unfolding key_of_parts key_of_part IsOtherPart
  key_of_parts-found [] part after key h found = rw found refl
  key_of_parts-found (p ∷ before) part after key ((_, h), rest) found =
      rw h (key_of_parts-found before part after key rest found)

  key_of_parts-none :
      (parts : List Bytes) → All IsOtherPart parts → key_of_parts svc unmarshal new_id parts ≡ []
  unfolding key_of_parts key_of_part IsOtherPart
  key_of_parts-none [] h = refl
  key_of_parts-none (p ∷ parts) ((_, h), rest) = rw h (key_of_parts-none parts rest)

  no_commas :
      (before : List Bytes) (part : Bytes) (after : List Bytes)
      → All IsOtherPart before
      → contains_byte b',' part ≡ false
      → All IsOtherPart after
      → All (λ p. contains_byte b',' p ≡ false) (before ++ part ∷ after)
  unfolding IsOtherPart
  no_commas [] part [] h plain k = (plain, tt)
  no_commas [] part (a ∷ after) h plain ((comma, _), k) = (plain, no_commas [] a after tt comma k)
  no_commas (b ∷ before) part after ((comma, _), h) plain k =
      (comma, no_commas before part after h plain k)

  project_key-join :
      (first : Bytes) (rest : List Bytes)
      → All (λ p. contains_byte b',' p ≡ false) (first ∷ rest)
      → project_key svc unmarshal new_id (join (text ",") (first ∷ rest))
        ≡ some_key (key_of_parts svc unmarshal new_id (first ∷ rest))
  unfolding project_key
  project_key-join first rest plain = rw (split-join b',' first rest plain) refl

  some_key-nonempty : (key : Bytes) → is_empty key ≡ false → some_key key ≡ some key
  some_key-nonempty key h = rw h refl

  join-Sentry :
      (first : Bytes) (rest : List Bytes)
      → text "Sentry " ++ join (text ",") (first ∷ rest)
        ≡ join (text ",") ((text "Sentry " ++ first) ∷ rest)
  join-Sentry first [] = refl
  join-Sentry first (next ∷ rest) = refl

  no_key : (p q : Bytes) → svc.texts.trim_space p ≡ b'S' ∷ q → key_of_part p ≡ none
  unfolding key_of_part cut_prefix
  no_key p q e = rw e refl

  -- Behind the scheme the first part has no key.
  behind_scheme :
      (first : Bytes) (rest : List Bytes)
      → ((p : Bytes) → (q : Bytes) × (svc.texts.trim_space (text "Sentry " ++ p) ≡ b'S' ∷ q))
      → All (λ p. contains_byte b',' p ≡ false) (first ∷ rest)
      → project_key svc unmarshal new_id (text "Sentry " ++ join (text ",") (first ∷ rest))
        ≡ some_key (key_of_parts svc unmarshal new_id rest)
  unfolding key_of_parts key_of_part
  behind_scheme first rest trims (plain, others) =
      let (q, e) = trims first in
      rw (join-Sentry first rest, project_key-join (text "Sentry " ++ first) rest (plain, others))
        (rw (no_key (text "Sentry " ++ first) q e) refl)

  key_of_header-none :
      (s : Bytes)
      → project_key svc unmarshal new_id (text "Sentry " ++ s) ≡ none
      → key_of_header svc unmarshal new_id (text "Sentry " ++ s)
        ≡ project_key svc unmarshal new_id s
  unfolding key_of_header cut_prefix
  key_of_header-none s h = rw (h, key_of_header) refl

  key_of_header-some :
      (s key : Bytes)
      → project_key svc unmarshal new_id s ≡ some key
      → key_of_header svc unmarshal new_id s ≡ some key
  unfolding key_of_header
  key_of_header-some s key h = rw (h, key_of_header) refl

  -- Without the scheme there is no key in the first part of the header.
  pub key_of_header-join :
      (before : List Bytes) (part : Bytes) (after : List Bytes) (key : Bytes)
      → ((p : Bytes) → (q : Bytes) × (svc.texts.trim_space (text "Sentry " ++ p) ≡ b'S' ∷ q))
      → All IsOtherPart before
      → contains_byte b',' part ≡ false
      → key_of_part part ≡ some key
      → is_empty key ≡ false
      → All IsOtherPart after
      → key_of_header svc unmarshal new_id
          (text "Sentry " ++ join (text ",") (before ++ part ∷ after))
        ≡ some key
  unfolding IsOtherPart
  key_of_header-join [] part after key trims h plain found some_text k =
      let commas = no_commas [] part after tt plain k in
      key_of_header-none (join (text ",") (part ∷ after))
        (behind_scheme part after trims commas ∙ ap some_key (key_of_parts-none after k))
      ∙ project_key-join part after commas
      ∙ ap some_key (key_of_parts-found [] part after key tt found)
      ∙ some_key-nonempty key some_text
  key_of_header-join (b ∷ before) part after key trims ((comma, _), h) plain found some_text k =
      key_of_header-some _ key (
        behind_scheme b (before ++ part ∷ after) trims
          (comma, no_commas before part after h plain k)
        ∙ ap some_key (key_of_parts-found before part after key h found)
        ∙ some_key-nonempty key some_text)
