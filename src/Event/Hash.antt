-- ===== src/Event/Hash.antt =====
-- internal/warnly/normalize.go: what an error is grouped by.
use warnly.Base.{
  ℕ, ◌*◌, ◌/◌, Bool, ◌&&◌, List, [], ◌∷◌, ◌++◌, map, if◌then◌else◌, ◌==◌, true, false, ltb, Bytes,
  text, filter, flat_map, length,
}
use warnly.Event.Body.{Frame, Exception, EventBody}
use warnly.Event.Frames.{get_module}

-- `ReplaceAllString` of the regular expression with a source text, `strings.TrimSpace`, md5 with
-- hex, and the verb `%d`.
pub record Texts : Type 0 where
  pub replace_all : Bytes → Bytes → Bytes → Bytes
  pub trim_space : Bytes → Bytes
  pub md5_hex : Bytes → Bytes
  pub itoa : ℕ → Bytes

abbrev pub timestamp_patterns : List Bytes
timestamp_patterns =
    text "\\d{4}-\\d{2}-\\d{2}T\\d{2}:\\d{2}:\\d{2}(?:\\.\\d+)?(?:Z|[+-]\\d{2}:\\d{2})"
    ∷ text "\\d{4}-\\d{2}-\\d{2}T\\d{2}:\\d{2}:\\d{2}Z"
    ∷ text "\\b\\d{10}\\b"
    ∷ text "\\d{4}-\\d{2}-\\d{2}"
    ∷ text "\\d{2}/\\d{2}/\\d{4}"
    ∷ text "\\d{2}-\\d{2}-\\d{4}"
    ∷ text "\\d{2}:\\d{2}:\\d{2}"
    ∷ text "\\d{1,2}:\\d{2}\\s*(?:AM|PM)"
    ∷ []

abbrev pub numeric_patterns : List Bytes
numeric_patterns =
    text "\\b\\d{6,}\\b"
    ∷ text "\\b\\d+\\.\\d+\\b"
    ∷ text "\\b0x[a-fA-F0-9]+\\b"
    ∷ text "\\b[a-fA-F0-9]{8,}\\b"
    ∷ []

abbrev pub url_patterns : List Bytes
url_patterns =
    text "https?://\\S+"
    ∷ text "(?:/[^/\\s]+)+/[^/\\s]*"
    ∷ text "[A-Za-z]:\\\\(?:[^\\\\/:*?\"<>|\\r\\n]+\\\\)*[^\\\\/:*?\"<>|\\r\\n]*"
    ∷ []

abbrev pub ip_patterns : List Bytes
ip_patterns =
    text "\\b(?:\\d{1,3}\\.){3}\\d{1,3}\\b"
    ∷ text "\\b(?:[0-9a-fA-F]{1,4}:){7}[0-9a-fA-F]{1,4}\\b"
    ∷ []

abbrev pub id_patterns : List Bytes
id_patterns =
    text "\\bid[=:]\\s*\\d+\\b"
    ∷ text "\\buserid[=:]\\s*\\d+\\b"
    ∷ text "\\buser_id[=:]\\s*\\d+\\b"
    ∷ text "\\bsession[=:]\\s*[a-zA-Z0-9]+\\b"
    ∷ text "\\btoken[=:]\\s*[a-zA-Z0-9]+\\b"
    ∷ []

abbrev pub uuid_pattern : Bytes
uuid_pattern =
    text "\\b[0-9a-fA-F]{8}-[0-9a-fA-F]{4}-[0-9a-fA-F]{4}-[0-9a-fA-F]{4}-[0-9a-fA-F]{12}\\b"

abbrev pub email_pattern : Bytes
email_pattern = text "\\b[A-Za-z0-9._%+-]+@[A-Za-z0-9.-]+\\.[A-Z|a-z]{2,}\\b"

abbrev pub version_pattern : Bytes
version_pattern = text "\\bv?\\d+\\.\\d+(?:\\.\\d+)?(?:-[a-zA-Z0-9]+)?\\b"

abbrev pub whitespace_pattern : Bytes
whitespace_pattern = text "\\s+"

-- `strings.Split(s, sep)[0]`: what stands before the first `sep`.
abbrev pub is_prefix : Bytes → Bytes → Bool
is_prefix [] s = true
is_prefix (c ∷ cs) [] = false
is_prefix (c ∷ cs) (x ∷ xs) = c == x && is_prefix cs xs

unfoldable pub before_text : Bytes → Bytes → Bytes
before_text sep [] = []
before_text sep (x ∷ xs) =
    let rest = before_text sep xs in if is_prefix sep (x ∷ xs) then [] else x ∷ rest

module _ (lib : Texts) where
  -- The loop over a list of patterns with one replacement.
  unfoldable pub replace_each : List Bytes → Bytes → Bytes → Bytes
  replace_each [] replacement s = s
  replace_each (p ∷ ps) replacement s =
      replace_each ps replacement (lib.replace_all p replacement s)

  -- The replacement is cut out of the pattern's source text.
  unfoldable pub replace_ids : List Bytes → Bytes → Bytes
  unfolding before_text
  replace_ids [] s = s
  replace_ids (p ∷ ps) s =
      replace_ids ps (lib.replace_all p (before_text (text "[=:]") p ++ text "=<id>") s)

  unfoldable pub normalize_message : Bytes → Bytes
  unfolding replace_each replace_ids
  normalize_message [] = []
  normalize_message (c ∷ cs) =
      let timeless = replace_each timestamp_patterns (text "<timestamp>") (c ∷ cs) in
      let no_uuids = lib.replace_all uuid_pattern (text "<uuid>") timeless in
      let no_urls = replace_each url_patterns (text "<path>") no_uuids in
      let no_ips = replace_each ip_patterns (text "<ip>") no_urls in
      let no_emails = lib.replace_all email_pattern (text "<email>") no_ips in
      let no_versions = lib.replace_all version_pattern (text "<version>") no_emails in
      let no_ids = replace_ids id_patterns no_versions in
      let no_numbers = replace_each numeric_patterns (text "<number>") no_ids in
      lib.trim_space (lib.replace_all whitespace_pattern (text " ") no_numbers)

  unfoldable pub normalize_frame : Frame → Frame
  unfolding normalize_message
  normalize_frame f = record f {
    context_line = normalize_message f.context_line;
    pre_context = map normalize_message f.pre_context;
    post_context = map normalize_message f.post_context;
  }

  unfoldable pub normalize_stack_trace : List Exception → List Exception
  unfolding normalize_message normalize_frame
  normalize_stack_trace exceptions =
      map
        (λ (e : Exception). record e {
          value = normalize_message e.value;
          frames = map normalize_frame e.frames;
        })
        exceptions

  -- The frames of the program itself, or all where there are none.
  unfoldable pub frames_to_hash : List Frame → List Frame
  frames_to_hash frames =
      if length (filter (λ (f : Frame). f.in_app) frames) == 0
      then frames
      else filter (λ (f : Frame). f.in_app) frames

  -- What is written for a frame; the line is rounded down to a ten.
  unfoldable pub frame_text : Frame → Bytes
  frame_text f = get_module f ++ f.function ++ lib.itoa (f.line_no / 10 * 10)

  unfoldable pub exception_text : Exception → Bytes
  unfolding frames_to_hash frame_text normalize_message
  exception_text e =
      e.exception_type ++ flat_map frame_text (frames_to_hash e.frames) ++ normalize_message e.value

  unfoldable pub hash_by_stack_trace : List Exception → Bytes
  unfolding exception_text
  hash_by_stack_trace exceptions = lib.md5_hex (flat_map exception_text exceptions)

  unfoldable pub hash_by_message : {V : Type 0} → EventBody V → Bytes
  unfolding normalize_message
  hash_by_message event =
      lib.md5_hex (normalize_message event.message ++ event.level ++ event.platform)

  -- Whether the first exception has frames.
  abbrev pub has_stack : List Exception → Bool
  has_stack [] = false
  has_stack (e ∷ es) = ltb 0 (length e.frames)

  -- `GetNormalizedHash`; writing to a hash never fails.
  unfoldable pub get_normalized_hash : {V : Type 0} → EventBody V → Bytes
  unfolding normalize_message normalize_stack_trace hash_by_stack_trace hash_by_message
  get_normalized_hash event =
      if has_stack (normalize_stack_trace event.exception)
      then hash_by_stack_trace (normalize_stack_trace event.exception)
      else hash_by_message (record event {
        message = normalize_message event.message;
        exception = normalize_stack_trace event.exception;
      })
