-- ===== src/Event/Row.antt =====
-- The row that internal/svc/event/event.go builds from an event.
use warnly.Base.{
  ℕ, ◌%◌, ◌^◌, Bool, false, not, ◌&&◌, Option, none, some, List, [], ◌∷◌, ◌++◌, map, if◌then◌else◌,
  ◌==◌, Bytes, text, bytes_eq, is_empty, length,
}
use warnly.Base.Int.{ℤ, pos}
use warnly.Event.Body.{Frame, EventUser, Extra, plain, other_value, EventBody, EventClickhouse}
use warnly.Event.Frames.{
  get_exception_stack_types, get_exception_stack_values, get_exception_frames_abs_path,
  get_exception_frames_col_no, filename, get_exception_frames_filename,
  get_exception_frames_function, get_exception_frames_line_no, get_exception_frames_in_app,
  get_exception_value, get_exception_type, get_thread_frames,
}

-- The library calls: `strconv.Itoa`, `json.MarshalIndent` and `strings.ToLower`.
pub record Library (V : Type 0) : Type 0 where
  pub itoa : ℤ → Bytes
  pub marshal_indent : V → Option Bytes
  pub to_lower : Bytes → Bytes

pub record Kv : Type 0 where
  pub keys : List Bytes
  pub values : List Bytes

abbrev pub empty_kv : Kv
empty_kv = record { keys = []; values = [] }

-- The two appends.
abbrev pub push : Bytes → Bytes → Kv → Kv
push k v kv = record { keys = kv.keys ++ k ∷ []; values = kv.values ++ v ∷ [] }

-- The same under a test.
abbrev pub push_if : Bool → Bytes → Bytes → Kv → Kv
push_if test k v kv = if test then push k v kv else kv

abbrev pub push_text : Bytes → Bytes → Kv → Kv
push_text k v kv = push_if (not (is_empty v)) k v kv

-- `n != 0`.
abbrev pub is_zero : ℤ → Bool
is_zero (pos n) = n == 0
is_zero _ = false

unfoldable pub make_user : EventUser → Bytes
make_user user = if not (is_empty user.id) then text "id:" ++ user.id else []

unfoldable pub push_tags : List (Bytes × Bytes) → Kv → Kv
push_tags [] kv = kv
push_tags ((k, v) ∷ tags) kv =
    push_tags tags (push_if (not (is_empty k) && not (is_empty v)) k v kv)

unfoldable pub make_tags : {V : Type 0} → EventBody V → Kv
make_tags event =
    let env_kv = push_text (text "env") event.environment empty_kv in
    let level_kv = push_text (text "level") event.level env_kv in
    let release_kv = push_text (text "release") event.release level_kv in
    let server_kv = push_text (text "server_name") event.server_name release_kv in
    let user_kv =
      push_if (not (is_empty event.user.id)) (text "user") (text "id:" ++ event.user.id)
        server_kv in
    push_tags event.tags user_kv

unfoldable pub get_level_of : Bytes → ℕ
get_level_of level =
    if bytes_eq level (text "fatal")
    then 1
    else if bytes_eq level (text "error")
    then 2
    else if bytes_eq level (text "warning")
    then 3
    else if bytes_eq level (text "info")
    then 4
    else if bytes_eq level (text "debug")
    then 5
    else if bytes_eq level (text "trace")
    then 6
    else 7

unfoldable pub platform_by_name : Bytes → ℕ
platform_by_name name =
    if bytes_eq name (text "go") then 1 else if bytes_eq name (text "rust") then 2 else 0

unfoldable pub get_sdk_id : Bytes → ℕ
get_sdk_id name =
    if bytes_eq name (text "sentry.go")
    then 1
    else if bytes_eq name (text "sentry.rust")
    then 2
    else 0

unfoldable pub set_frames : List Frame → EventClickhouse → EventClickhouse
unfolding filename
set_frames [] ev = ev
set_frames (f ∷ fs) ev = record ev {
  exception_frames_function = map (λ (x : Frame). x.function) (f ∷ fs);
  exception_frames_abs_path = map (λ (x : Frame). x.abs_path) (f ∷ fs);
  exception_frames_filename = map (λ (x : Frame). filename x.abs_path) (f ∷ fs);
  exception_frames_line_no = map (λ (x : Frame). x.line_no) (f ∷ fs);
  exception_frames_col_no = map (λ (x : Frame). x.line_no) (f ∷ fs);
  exception_frames_in_app = map (λ (x : Frame). if x.in_app then 1 else 0) (f ∷ fs);
}

unfoldable pub populate_thread_frames :
    {V : Type 0} → EventClickhouse → EventBody V → EventClickhouse
unfolding set_frames
populate_thread_frames ev event = set_frames (get_thread_frames event.threads) ev

-- Frames of a thread where the exceptions have none.
unfoldable pub with_frames : {V : Type 0} → EventBody V → EventClickhouse → EventClickhouse
unfolding populate_thread_frames
with_frames event ev =
    if length ev.exception_frames_function == 0 then populate_thread_frames ev event else ev

-- What the row takes from elsewhere: the project's options, the address, the issue and the clock.
pub record RowContext : Type 0 where
  pub retention_days : ℕ
  pub ipv4 : Bytes
  pub ipv6 : Bytes
  pub issue_id : ℕ
  pub issue_uuid : Bytes
  pub project_id : ℕ
  pub now : ℕ

module _ {V : Type 0} (lib : Library V) where
  unfoldable pub extra_text : Extra V → Option Bytes
  extra_text (plain s) = some s
  extra_text (other_value v) = lib.marshal_indent v

  -- An error of the encoder ends the call.
  unfoldable pub push_extra : List (Bytes × Extra V) → Kv → Option Kv
  unfolding extra_text
  push_extra [] kv = some kv
  push_extra ((k, v) ∷ extra) kv = elim (extra_text v) [
    | none ↦ none
    | some s ↦ push_extra extra (push (text "extra." ++ k) s kv)
  ]

  unfoldable pub push_number : Bytes → ℤ → Kv → Kv
  push_number k n kv = push_if (not (is_zero n)) k (lib.itoa n) kv

  unfoldable pub push_contexts : EventBody V → Kv
  unfolding push_number
  push_contexts event =
      let ip_kv = push_text (text "user.ip") event.user.ip_address empty_kv in
      let arch_kv = push_text (text "device.arch") event.contexts.device.arch ip_kv in
      let cpu_kv = push_number (text "device.num_cpu") event.contexts.device.num_cpu arch_kv in
      let name_kv = push_text (text "runtime.name") event.contexts.runtime.name cpu_kv in
      let version_kv = push_text (text "runtime.version") event.contexts.runtime.version name_kv in
      let procs_kv =
        push_number (text "runtime.go_maxprocs") event.contexts.runtime.go_max_procs version_kv in
      let calls_kv =
        push_number (text "runtime.go_numcgocalls") event.contexts.runtime.go_num_cgo_calls
          procs_kv in
      let routines_kv =
        push_number (text "runtime.go_numroutines") event.contexts.runtime.go_num_routines
          calls_kv in
      push_text (text "os.name") event.contexts.os_name routines_kv

  unfoldable pub make_contexts : EventBody V → Option Kv
  unfolding push_extra push_contexts
  make_contexts event = push_extra event.extra (push_contexts event)

  unfoldable pub get_level : Bytes → ℕ
  unfolding get_level_of
  get_level level = get_level_of (lib.to_lower level)

  unfoldable pub title_of : EventBody V → Bytes
  title_of event =
      get_exception_type event.exception event.message
      ++ text ": "
      ++ get_exception_value event.exception (text "(No error message)")

  -- The row of the exceptions.
  unfoldable pub exception_row : EventBody V → RowContext → Kv → EventClickhouse
  exception_row event at contexts = record {
    created_at = at.now;
    stored_sdk_version = event.sdk_version;
    stored_user = make_user event.user;
    user_email = event.user.email;
    user_name = event.user.name;
    user_username = event.user.username;
    primary_hash = at.issue_uuid;
    env = event.environment;
    stored_event_id = event.event_id;
    stored_message = event.message;
    ipv6 = at.ipv6;
    stored_release = event.release;
    title = title_of event;
    ipv4 = at.ipv4;
    exception_frames_in_app = get_exception_frames_in_app event.exception;
    contexts_key = contexts.keys;
    exception_frames_col_no = get_exception_frames_col_no event.exception;
    exception_frames_abs_path = get_exception_frames_abs_path event.exception;
    exception_frames_line_no = get_exception_frames_line_no event.exception;
    exception_stacks_type = get_exception_stack_types event.exception;
    exception_stacks_value = get_exception_stack_values event.exception;
    tags_key = (make_tags event).keys;
    exception_frames_function = get_exception_frames_function event.exception;
    tags_value = (make_tags event).values;
    exception_frames_filename = get_exception_frames_filename event.exception;
    contexts_value = contexts.values;
    group_id = at.issue_id;
    project_id = at.project_id % 2 ^ 16;
    stored_level = get_level event.level;
    event_type = 1;
    sdk_id = get_sdk_id event.sdk_name;
    stored_platform = platform_by_name event.platform;
    retention_days = at.retention_days;
    deleted = 0;
  }

  abbrev pub with_contexts : EventBody V → RowContext → Option Kv → Option EventClickhouse
  with_contexts event at none = none
  with_contexts event at (some contexts) =
      some (with_frames event (exception_row event at contexts))

  -- The row of an event: none where a context cannot be encoded.
  unfoldable pub row_of : EventBody V → RowContext → Option EventClickhouse
  unfolding make_contexts
  row_of event at = with_contexts event at (make_contexts event)
