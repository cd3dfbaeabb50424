-- ===== src/Server/Ingest.antt =====
-- The handler of events of internal/server/event.go, on the event service.
use warnly.Base.{
  ℕ, Option, none, some, List, [], ◌∷◌, if◌then◌else◌, ◌==◌, Bytes, text, is_empty, length, drop,
  Result, ok, err, or_err, ◌>>?◌,
}
use warnly.Db.Tables.{project_not_found}
use warnly.Event.Body.{EventBody}
use warnly.Event.Hash.{is_prefix}
use warnly.Event.Uuid.{hex}
use warnly.Event.Ingest.{IngestRequest, Intake, IngestError, stored, EventService, ingest_event}

-- A byte in front of the parts of the rest.
abbrev pub grown : ℕ → ℕ → List Bytes → List Bytes
grown c x [] = [] ∷ []
grown c x (part ∷ parts) = if x == c then [] ∷ part ∷ parts else (x ∷ part) ∷ parts

-- `strings.Split` by one byte: always one part at least.
unfoldable pub split : ℕ → Bytes → List Bytes
split c [] = [] ∷ []
split c (x ∷ s) = grown c x (split c s)

-- `strings.CutPrefix`.
unfoldable pub cut_prefix : Bytes → Bytes → Option Bytes
cut_prefix prefix s = if is_prefix prefix s then some (drop (length prefix) s) else none

abbrev pub or_whole : Bytes → Option Bytes → Bytes
or_whole s none = s
or_whole s (some rest) = rest

-- Why the body could not be read, of `io.ReadAll` behind `http.MaxBytesReader`.
pub data ReadError : Type 0 where
  eof too_large unreadable : ReadError

-- `path_id` is what `strconv.Atoi` makes of the project in the path.
pub record IngestHttp : Type 0 where
  pub path_id : Option ℕ
  pub sentry_auth : Bytes
  pub body : Result ReadError Bytes
  pub remote_addr : Bytes

-- A client error has status 400, its detail and causes; an internal one has status 500.
pub data IngestReply : Type 0 where
  accepted : Bytes → IngestReply
  bad_request : Bytes → List Bytes → IngestReply
  internal_error : IngestReply

abbrev pub max_envelope_size : Bytes
max_envelope_size = text "max 1048576 bytes"

abbrev pub read_error : ReadError → IngestReply
read_error eof = bad_request (text "empty request body") (text "no payload provided" ∷ [])
read_error too_large = bad_request (text "envelope exceeded size limits") (max_envelope_size ∷ [])
read_error unreadable =
    bad_request (text "failed to read request body") (text "failed to decode payload" ∷ [])

abbrev pub read_body : Result ReadError Bytes → Result IngestReply Bytes
read_body (ok b) = ok b
read_body (err e) = err (read_error e)

abbrev pub invalid_dsn : IngestReply
invalid_dsn = bad_request (text "invalid DSN or project key.") []

abbrev pub too_few_lines : IngestReply
too_few_lines =
    bad_request (text "invalid event envelope") (text "premature end of input: too few lines" ∷ [])

abbrev pub invalid_project : IngestReply
invalid_project =
    bad_request (text "invalid project identifier") (text "project_id must be an integer" ∷ [])

abbrev pub invalid_event : IngestReply
invalid_event =
    bad_request (text "invalid event body") (text "failed to unmarshal JSON payload" ∷ [])

abbrev pub no_project : IngestReply
no_project = bad_request (text "project not found") (text "invalid project identifier or key" ∷ [])

abbrev pub reply_of : Result IngestError Bytes → IngestReply
reply_of (ok id) = accepted id
reply_of (err (stored project_not_found)) = no_project
reply_of (err e) = internal_error

abbrev pub third_line : List Bytes → Option Bytes
third_line (a ∷ b ∷ c ∷ lines) = some c
third_line lines = none

abbrev pub some_key : Bytes → Option Bytes
some_key key = if is_empty key then none else some key

-- `unmarshal` is `json.Unmarshal` into an event, `new_id` what `uuid.New` gives.
module _ {V : Type 0} (svc : EventService V) (unmarshal : Bytes → Option (EventBody V))
    (new_id : Bytes) where
  -- What follows `sentry_key=` in the first part that begins with it.
  unfoldable pub key_of_parts : List Bytes → Bytes
  unfolding cut_prefix
  key_of_parts [] = []
  key_of_parts (part ∷ parts) = elim (cut_prefix (text "sentry_key=") (svc.texts.trim_space part)) [
    | none ↦ key_of_parts parts
    | some key ↦ key
  ]

  unfoldable pub project_key : Bytes → Option Bytes
  unfolding split key_of_parts
  project_key header = some_key (key_of_parts (split b',' header))

  -- The header is read again without the scheme where it has no key.
  unfoldable pub key_of_header : Bytes → Option Bytes
  unfolding project_key
  key_of_header header = elim (project_key header) [
    | none ↦ project_key (or_whole header (cut_prefix (text "Sentry ") header))
    | some key ↦ some key
  ]

  abbrev pub with_id : EventBody V → EventBody V
  unfolding hex
  with_id event = if is_empty event.event_id then record event { event_id = hex new_id } else event

  unfoldable pub decoded : Option (EventBody V) → Result IngestReply (EventBody V)
  unfolding with_id
  decoded none = err invalid_event
  decoded (some event) = ok (with_id event)

  unfoldable pub event_of_line : Option Bytes → Result IngestReply (EventBody V)
  unfolding decoded
  event_of_line none = err too_few_lines
  event_of_line (some line) = decoded (unmarshal line)

  -- What the guards of `handleIngestEvent` make of a request: one to the service, or a reply.
  unfoldable pub checked : IngestHttp → Result IngestReply (IngestRequest V)
  unfolding key_of_header split event_of_line
  checked r = or_err r.path_id invalid_project >>? λ id.
      or_err (key_of_header r.sentry_auth) invalid_dsn >>? λ key. read_body r.body >>? λ content.
      event_of_line (third_line (split 10 content)) >>? λ event.
      ok (record { event = event; ip = r.remote_addr; project_key = key; project_id = id })

  unfoldable pub answered : Result IngestReply (IngestRequest V) → Intake → IngestReply × Intake
  unfolding ingest_event
  answered (err reply) w = (reply, w)
  answered (ok req) w = (reply_of (ingest_event svc req w).0, (ingest_event svc req w).1)

  -- `IngestEvent` of the handler.
  unfoldable pub ingest : IngestHttp → Intake → IngestReply × Intake
  unfolding checked answered
  ingest r w = answered (checked r) w
