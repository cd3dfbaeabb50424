-- ===== src/Event/Ingest.antt =====
-- `IngestEvent` of internal/svc/event/event.go: the caches, the issue, and where the row goes.
use warnly.Base.{
  ℕ, ◌+◌, Bool, Option, none, some, List, [], ◌∷◌, ◌++◌, if◌then◌else◌, Bytes, text, length, Result,
  ok, err, Action, pure, fail, ◌>>=◌, ◌>>◌,
}
use warnly.Db.Tables.{Db, Env, DbError, M, Issue, not_found, read_clock}
use warnly.Db.Issues.{get_issue_by_hash, store_issue_row, update_last_seen, get_options}
use warnly.Query.Parse.{set_key, get_key}
use warnly.Event.Body.{EventBody, EventClickhouse}
use warnly.Event.Frames.{get_exception_type, get_exception_value, get_breaker}
use warnly.Event.Row.{Library, RowContext, row_of}
use warnly.Event.Hash.{Texts, get_normalized_hash}
use warnly.Event.Uuid.{uuid_string}

pub record IssueInfo : Type 0 where
  pub uuid : Bytes
  pub hash : Bytes
  pub id : ℕ

pub record ProjectOptions : Type 0 where
  pub name : Bytes
  pub id : ℕ
  pub platform : ℕ
  pub retention_days : ℕ

pub record IngestRequest (V : Type 0) : Type 0 where
  pub event : EventBody V
  pub ip : Bytes
  pub project_key : Bytes
  pub project_id : ℕ

-- The tables, the two kinds of entries of the cache, the rows that were queued or stored, and how
-- often the cache was asked and a flight was started.
pub record Intake : Type 0 where
  pub db : Db
  pub issue_cache : List (Bytes × IssueInfo)
  pub options_cache : List (Bytes × ProjectOptions)
  pub produced : List EventClickhouse
  pub events : List EventClickhouse
  pub lookups : ℕ
  pub flights : ℕ

pub data IngestError : Type 0 where
  stored : DbError → IngestError
  bad_address not_an_ip bad_context bad_row no_queue no_olap : IngestError

abbrev pub I : Type 0 → Type 0
I A = Action Intake IngestError A

abbrev pub with_tables :
    {A : Type 0} → Result DbError A × Db → Intake → Result IngestError A × Intake
with_tables (ok a, db) w = (ok a, record w { db = db })
with_tables (err e, db) w = (err (stored e), record w { db = db })

unfoldable pub in_tables : {A : Type 0} → M A → I A
in_tables m w = with_tables (m w.db) w

-- The issue of a hash, if there is one.
abbrev pub if_any : Result DbError Issue × Db → Result DbError (Option Issue) × Db
if_any (ok i, db) = (ok (some i), db)
if_any (err not_found, db) = (ok none, db)
if_any (err e, db) = (err e, db)

unfoldable pub known_issue : M Issue → M (Option Issue)
known_issue m db = if_any (m db)

abbrev pub value_or : {A : Type 0} → Option A → IngestError → I A
value_or none e = fail e
value_or (some a) e = pure a

-- The service. `expired` says whether go-cache has dropped what it is asked for at the n-th
-- lookup; `in_flight` what another call gives whose flight the n-th one of singleflight joins;
-- `new_uuid` is google/uuid; `split_host_port` and `parse_addr` are of net and net/netip, the
-- latter with whether the address is of version 4; `encodes`, `produces` and `stores` whether
-- json.Marshal, the producer and the analytics store take a row.
pub record EventService (V : Type 0) : Type 0 where
  pub env : Env
  pub lib : Library V
  pub texts : Texts
  pub expired : ℕ → Bool
  pub in_flight : ℕ → Option (Result DbError (Unit {0}))
  pub new_uuid : ℕ → Bytes
  pub split_host_port : Bytes → Option Bytes
  pub parse_addr : Bytes → Option (Bool × Bytes)
  pub queue_enabled : Bool
  pub encodes : EventClickhouse → Bool
  pub produces : ℕ → Bool
  pub stores : ℕ → Bool

module _ {V : Type 0} (svc : EventService V) where
  unfoldable pub extract_ip : Bytes → I (Bytes × Bytes)
  extract_ip address = do
    ip ← value_or (svc.split_host_port address) bad_address
    addr ← value_or (svc.parse_addr ip) not_an_ip
    pure (if addr.0 then (addr.1, text "::1") else (text "127.0.0.1", addr.1))

  unfoldable pub options_key : IngestRequest V → Bytes
  options_key req =
      text "project_options:" ++ svc.texts.itoa req.project_id ++ text ":" ++ req.project_key

  unfoldable pub cached_options : Bytes → I (Option ProjectOptions)
  unfolding get_key
  cached_options key w = (
    ok (if svc.expired w.lookups then none else get_key key w.options_cache),
    record w { lookups = w.lookups + 1 },
  )

  unfoldable pub options_or_load : IngestRequest V → Option ProjectOptions → I ProjectOptions
  unfolding set_key options_key
  options_or_load req (some opts) = pure opts
  options_or_load req none = do
    project ← in_tables (get_options svc.env req.project_id req.project_key)
    let opts : ProjectOptions = record {
      name = project.name;
      id = project.id;
      platform = project.platform;
      retention_days = 90;
    }
    (λ w. (ok opts, record w { options_cache = set_key (options_key req) opts w.options_cache }))

  -- `getProjectOptions`.
  unfoldable pub get_project_options : IngestRequest V → I ProjectOptions
  unfolding cached_options options_or_load
  get_project_options req = do found ← cached_options (options_key req); options_or_load req found

  unfoldable pub cache_key : IngestRequest V → Bytes
  cache_key req =
      svc.texts.itoa req.project_id ++ text ":" ++ get_normalized_hash svc.texts req.event

  -- `sf.Do`: the call is made, or the result of one in flight is shared.
  abbrev pub joined_flight : Option (Result DbError (Unit {0})) → I (Unit {0}) → I (Unit {0})
  joined_flight none call = call
  joined_flight (some r) call = in_tables (λ db. (r, db))

  unfoldable pub fly : I (Unit {0}) → I (Unit {0})
  fly call w = joined_flight (svc.in_flight w.flights) call (record w { flights = w.flights + 1 })

  unfoldable pub touch_issue : EventBody V → ℕ → I (Unit {0})
  unfolding fly
  touch_issue event issue_id = do
    now ← in_tables (read_clock svc.env)
    fly (
        in_tables (
          update_last_seen svc.env (record {
            issue_id = issue_id;
            last_seen = now;
            message = get_exception_value event.exception (text "(No error message)");
            error_type = get_exception_type event.exception event.message;
            view = get_breaker event.exception;
          })))

  unfoldable pub fresh_issue : IngestRequest V → ℕ → ℕ → Issue
  fresh_issue req now n = record {
    id = 0;
    uuid = svc.new_uuid n;
    first_seen = now;
    last_seen = now;
    hash = get_normalized_hash svc.texts req.event;
    message = get_exception_value req.event.exception (text "(No error message)");
    error_type = get_exception_type req.event.exception req.event.message;
    view = get_breaker req.event.exception;
    num_comments = 0;
    project_id = req.project_id;
    priority = 3;
  }

  -- The number is set by the call that stores the issue, and not where its flight was joined.
  abbrev pub numbered : Option (Result DbError (Unit {0})) → Issue → I Issue
  numbered none issue =
      in_tables (store_issue_row svc.env issue) >>= λ id. pure (record issue { id = id })
  numbered (some r) issue = in_tables (λ db. (r, db)) >>= λ _. pure issue

  unfoldable pub store_fresh : Issue → I Issue
  store_fresh issue w =
      numbered (svc.in_flight w.flights) issue (record w { flights = w.flights + 1 })

  unfoldable pub issue_or_new : IngestRequest V → Option Issue → I Issue
  unfolding touch_issue fresh_issue store_fresh
  issue_or_new req (some issue) = touch_issue req.event issue.id >>= λ _. pure issue
  issue_or_new req none = in_tables (read_clock svc.env) >>= λ now.
      λ w. store_fresh (fresh_issue req now w.db.statements) w

  unfoldable pub cached_issue : Bytes → I (Option IssueInfo)
  unfolding get_key
  cached_issue key w = (
    ok (if svc.expired w.lookups then none else get_key key w.issue_cache),
    record w { lookups = w.lookups + 1 },
  )

  unfoldable pub info_or_load : IngestRequest V → Option IssueInfo → I IssueInfo
  unfolding cache_key issue_or_new touch_issue set_key known_issue uuid_string
  info_or_load req (some info) = touch_issue req.event info.id >>= λ _. pure info
  info_or_load req none = do
    found ← in_tables (
        known_issue
          (get_issue_by_hash svc.env req.project_id (get_normalized_hash svc.texts req.event)))
    issue ← issue_or_new req found
    let info : IssueInfo = record {
      id = issue.id;
      uuid = uuid_string issue.uuid;
      hash = issue.hash;
    }
    (λ w. (ok info, record w { issue_cache = set_key (cache_key req) info w.issue_cache }))

  unfoldable pub deliver_row : EventClickhouse → I (Unit {0})
  deliver_row row w =
      if svc.queue_enabled
      then (if svc.encodes row
          then (if svc.produces (length w.produced)
              then (ok tt, record w { produced = w.produced ++ row ∷ [] })
              else (err no_queue, w))
          else (err bad_row, w))
      else (if svc.stores (length w.events)
          then (ok tt, record w { events = w.events ++ row ∷ [] })
          else (err no_olap, w))

  abbrev pub context_of :
      IngestRequest V → ProjectOptions → Bytes × Bytes → IssueInfo → ℕ → RowContext
  context_of req opts ips info now = record {
    retention_days = opts.retention_days;
    ipv4 = ips.0;
    ipv6 = ips.1;
    issue_id = info.id;
    issue_uuid = info.uuid;
    project_id = req.project_id;
    now = now;
  }

  -- The row is made, and goes to the queue or to the analytics store.
  unfoldable pub hand_on : IngestRequest V → RowContext → I Bytes
  unfolding row_of deliver_row
  hand_on req at = do
    row ← value_or (row_of svc.lib req.event at) bad_context
    deliver_row row
    pure row.stored_event_id

  unfoldable pub ingest_event : IngestRequest V → I Bytes
  unfolding get_project_options extract_ip info_or_load cached_issue hand_on
  ingest_event req = do
    opts ← get_project_options req
    ips ← extract_ip req.ip
    found ← cached_issue (cache_key req)
    info ← info_or_load req found
    now ← in_tables (read_clock svc.env)
    hand_on req (context_of req opts ips info now)
