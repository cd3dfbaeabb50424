-- ===== src/Event/Tests.antt =====
-- The theorems on events at one event with a thread.
use mathlib.Core.List.{reverse}
use warnly.Base.{
  Option, List, ok, none, ℕ, ◌+◌, ◌≡◌, inl, refl, true, false, some, [], ◌∷◌, Bytes, text, All,
}
use warnly.Base.Int.{pos}
use warnly.Event.Body.{Frame, Exception, Thread, plain, EventBody, EventClickhouse}
use warnly.Event.Frames.{get_module, is_ignored, label, get_breaker}
use warnly.Event.Row.{
  Library, Kv, RowContext, exception_row, with_frames, make_contexts, push_contexts, push_number,
  push_extra, extra_text, row_of,
}
use warnly.Event.Aligned.{Shows, stored_frames, stored_flags, row_of-frames}
use warnly.Event.Pairs.{HoldsPairs, tags_of, row_of-pairs}
use warnly.Event.Ingest.{EventService, IngestRequest, Intake, ingest_event}
use warnly.Event.Delivery.{IsDelivered, ingest_event-IsDelivered}
use warnly.Server.Ingest.{IngestHttp, key_of_header, cut_prefix, ingest}
use warnly.Server.Envelopes.{IsAnswered, ingest-IsAnswered}
use warnly.Server.Keys.{IsOtherPart, key_of_part, key_of_header-join}
use warnly.Project.Types.{IssueEvent}
use warnly.Project.Stack.{StackDetail, get_stack_details}
use warnly.Project.Shown.{IsStackOf, get_stack_details-stored}
use warnly.Olap.Events.{no_issue_event}
use warnly.Event.Breaker.{IsLeftOut, get_breaker_lem}

abbrev frame_of : Bytes → Bytes → Frame
frame_of m f = record {
  function = f;
  module_name = m;
  package_name = [];
  abs_path = text "/app/main.go";
  context_line = [];
  pre_context = [];
  post_context = [];
  line_no = 12;
  in_app = true;
}

abbrev main_frame : Frame
main_frame = frame_of (text "main") (text "run")

abbrev log_frame : Frame
log_frame = frame_of (text "github.com/rs/zerolog") (text "Err")

abbrev exception : Exception
exception = record {
  exception_type = text "Error";
  value = text "boom";
  frames = main_frame ∷ log_frame ∷ [];
}

abbrev thread : Thread
thread = record { id = text "1"; name = text "main"; frames = main_frame ∷ []; current = true }

abbrev event : EventBody ℕ
event = record {
  tags = (text "region", text "eu") ∷ [];
  user = record {
    id = text "7";
    email = [];
    ip_address = text "10.0.0.1";
    username = [];
    name = [];
  };
  message = text "boom";
  platform = text "rust";
  release = [];
  server_name = text "web";
  level = text "error";
  event_id = text "e1";
  environment = text "live";
  sdk_name = text "sentry.rust";
  sdk_version = text "1";
  exception = [];
  threads = thread ∷ [];
  extra = (text "build", plain (text "9")) ∷ [];
  contexts = record {
    os_name = text "linux";
    device = record { arch = text "arm"; num_cpu = pos 4 };
    runtime = record {
      name = [];
      version = [];
      go_max_procs = pos 0;
      go_num_cgo_calls = pos 0;
      go_num_routines = pos 0;
    };
  };
}

abbrev library : Library ℕ
library = record { itoa = λ z. text "4"; marshal_indent = λ v. some (text "{}"); to_lower = λ s. s }

abbrev at : RowContext
at = record {
  retention_days = 90;
  ipv4 = text "10.0.0.1";
  ipv6 = text "::1";
  issue_id = 5;
  issue_uuid = text "u";
  project_id = 2;
  now = 1000;
}

abbrev contexts : Kv
contexts = record {
  keys =
      text "user.ip"
      ∷ text "device.arch"
      ∷ text "device.num_cpu"
      ∷ text "os.name"
      ∷ text "extra.build"
      ∷ [];
  values = text "10.0.0.1" ∷ text "arm" ∷ text "4" ∷ text "linux" ∷ text "9" ∷ [];
}

abbrev row : EventClickhouse
row = with_frames event (exception_row library event at contexts)

stored : row_of library event at ≡ some row
unfolding row_of make_contexts push_contexts push_number push_extra extra_text
stored = refl

row_of-frames_example : Shows (stored_frames event) (stored_flags event) row
row_of-frames_example = row_of-frames library event at row stored

row_of-pairs_example : HoldsPairs (tags_of event) row
row_of-pairs_example = row_of-pairs library event at row stored

left_out : All IsLeftOut (log_frame ∷ [])
unfolding is_ignored get_module
left_out = (refl, tt)

main_own : is_ignored (get_module main_frame) ≡ false
unfolding is_ignored get_module
main_own = refl

get_breaker_lem_example : get_breaker (exception ∷ []) ≡ label main_frame
get_breaker_lem_example =
    get_breaker_lem [] exception [] (log_frame ∷ []) main_frame refl left_out (inl main_own)

abbrev service : EventService ℕ
service = record {
  env = record {
    fails = λ n. false;
    db_now = λ n. 1000 + n;
    clock = λ n. 1000 + n;
    counts = λ a b. true;
  };
  lib = library;
  texts = record {
    replace_all = λ pattern new s. s;
    trim_space = λ s. s;
    md5_hex = λ s. s;
    itoa = λ n. text "2";
  };
  expired = λ n. false;
  in_flight = λ n. none;
  new_uuid = λ n. 1 ∷ 2 ∷ [];
  split_host_port = λ s. some s;
  parse_addr = λ s. some (true, s);
  queue_enabled = false;
  encodes = λ r. true;
  produces = λ n. true;
  stores = λ n. true;
}

abbrev ingest_request : IngestRequest ℕ
ingest_request = record {
  event = event;
  ip = text "10.0.0.1";
  project_key = text "k";
  project_id = 2;
}

abbrev intake : Intake
intake = record {
  db = record {
    alerts = [];
    channels = [];
    webhooks = [];
    notifications = [];
    locks = [];
    issues = [];
    projects =
        record {
          id = 2;
          name = text "shop";
          team_id = 3;
          created_at = 1;
          user_id = 7;
          platform = 1;
          key = text "k";
        }
        ∷ [];
    teams = [];
    memberships = [];
    users = [];
    messages = [];
    mentions = [];
    assignments = [];
    next_id = 10;
    statements = 0;
    readings = 0;
  };
  issue_cache = [];
  options_cache = [];
  produced = [];
  events = [];
  lookups = 0;
  flights = 0;
}

ingest_event-IsDelivered_example :
    IsDelivered service ingest_request intake (ingest_event service ingest_request intake)
ingest_event-IsDelivered_example = ingest_event-IsDelivered service ingest_request intake

abbrev unmarshal : Bytes → Option (EventBody ℕ)
unmarshal line = some event

abbrev header : Bytes
header = text "Sentry sentry_version=7,sentry_key=k,sentry_client=go"

abbrev envelope : IngestHttp
envelope = record {
  path_id = some 2;
  sentry_auth = header;
  body = ok (text "{}\n{}\n{}");
  remote_addr = text "10.0.0.1";
}

other_version : IsOtherPart service unmarshal [] (text "sentry_version=7")
unfolding IsOtherPart key_of_part cut_prefix
other_version = (refl, refl)

other_client : IsOtherPart service unmarshal [] (text "sentry_client=go")
unfolding IsOtherPart key_of_part cut_prefix
other_client = (refl, refl)

key_found : key_of_part service unmarshal [] (text "sentry_key=k") ≡ some (text "k")
unfolding key_of_part cut_prefix
key_found = refl

key_of_header-join_example : key_of_header service unmarshal [] header ≡ some (text "k")
key_of_header-join_example =
    key_of_header-join service unmarshal [] (text "sentry_version=7" ∷ []) (text "sentry_key=k")
      (text "sentry_client=go" ∷ []) (text "k") (λ p. (_, refl)) (other_version, tt) refl key_found
      refl (other_client, tt)

ingest-IsAnswered_example :
    IsAnswered service unmarshal [] envelope intake (ingest service unmarshal [] envelope intake)
ingest-IsAnswered_example = ingest-IsAnswered service unmarshal [] envelope intake

abbrev read_event : IssueEvent
read_event = record no_issue_event {
  exception_frames_abs_path = row.exception_frames_abs_path;
  exception_frames_function = row.exception_frames_function;
  exception_frames_lineno = row.exception_frames_line_no;
  exception_frames_in_app = row.exception_frames_in_app;
}

get_stack_details-stored_example :
    (details : List StackDetail) × (get_stack_details read_event ≡ some (reverse details))
    × IsStackOf (stored_frames event) details
get_stack_details-stored_example =
    get_stack_details-stored library event at row read_event stored (refl, refl, refl, refl)
