-- ===== src/Event/Body.antt =====
-- The body of an event, internal/warnly/envelope.go. A Go map is the list of its entries in the
-- order in which a loop visits them; an entry of `extra` is a string, or a value that the type `V`
-- leaves open.
use warnly.Base.{ℕ, Bool, List, Bytes}
use warnly.Base.Int.{ℤ}

pub record Frame : Type 0 where
  pub function : Bytes
  pub module_name : Bytes
  pub package_name : Bytes
  pub abs_path : Bytes
  pub context_line : Bytes
  pub pre_context : List Bytes
  pub post_context : List Bytes
  pub line_no : ℕ
  pub in_app : Bool

pub record Exception : Type 0 where
  pub exception_type : Bytes
  pub value : Bytes
  pub frames : List Frame

pub record Thread : Type 0 where
  pub id : Bytes
  pub name : Bytes
  pub frames : List Frame
  pub current : Bool

pub record DeviceContext : Type 0 where
  pub arch : Bytes
  pub num_cpu : ℤ

pub record RuntimeContext : Type 0 where
  pub name : Bytes
  pub version : Bytes
  pub go_max_procs : ℤ
  pub go_num_cgo_calls : ℤ
  pub go_num_routines : ℤ

pub record Contexts : Type 0 where
  pub os_name : Bytes
  pub device : DeviceContext
  pub runtime : RuntimeContext

pub record EventUser : Type 0 where
  pub id : Bytes
  pub email : Bytes
  pub ip_address : Bytes
  pub username : Bytes
  pub name : Bytes

-- A value of `extra`.
pub data Extra (V : Type 0) : Type 0 where
  plain : Bytes → Extra V
  other_value : V → Extra V

pub record EventBody (V : Type 0) : Type 0 where
  pub tags : List (Bytes × Bytes)
  pub user : EventUser
  pub message : Bytes
  pub platform : Bytes
  pub release : Bytes
  pub server_name : Bytes
  pub level : Bytes
  pub event_id : Bytes
  pub environment : Bytes
  pub sdk_name : Bytes
  pub sdk_version : Bytes
  pub exception : List Exception
  pub threads : List Thread
  pub extra : List (Bytes × Extra V)
  pub contexts : Contexts

-- `EventClickhouse`.
pub record EventClickhouse : Type 0 where
  pub created_at : ℕ
  pub stored_sdk_version : Bytes
  pub stored_user : Bytes
  pub user_email : Bytes
  pub user_name : Bytes
  pub user_username : Bytes
  pub primary_hash : Bytes
  pub env : Bytes
  pub stored_event_id : Bytes
  pub stored_message : Bytes
  pub ipv6 : Bytes
  pub stored_release : Bytes
  pub title : Bytes
  pub ipv4 : Bytes
  pub exception_frames_in_app : List ℕ
  pub contexts_key : List Bytes
  pub exception_frames_col_no : List ℕ
  pub exception_frames_abs_path : List Bytes
  pub exception_frames_line_no : List ℕ
  pub exception_stacks_type : List Bytes
  pub exception_stacks_value : List Bytes
  pub tags_key : List Bytes
  pub exception_frames_function : List Bytes
  pub tags_value : List Bytes
  pub exception_frames_filename : List Bytes
  pub contexts_value : List Bytes
  pub group_id : ℕ
  pub project_id : ℕ
  pub stored_level : ℕ
  pub event_type : ℕ
  pub sdk_id : ℕ
  pub stored_platform : ℕ
  pub retention_days : ℕ
  pub deleted : ℕ
