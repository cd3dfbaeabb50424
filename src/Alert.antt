-- ===== src/Alert.antt =====
-- The alert rules, notification channels and notifications of internal/warnly/alert.go and
-- internal/warnly/notification.go. A time is a number of nanoseconds since a fixed origin that
-- lies more than thirty days before any time at hand.
use warnly.Base.{ℕ, ◌*◌, ◌-◌, ◌%◌, ◌^◌, Bool, true, false, Option, Bytes}
use warnly.Base.Int.{ℤ, pos, negsuc}

-- `other` stands for any string but the three.
pub data AlertStatus : Type 0 where
  active inactive triggered : AlertStatus
  other : Bytes → AlertStatus

pub data AlertCondition : Type 0 where
  occurrences users : AlertCondition
  other_condition : ℤ → AlertCondition

pub data AlertTimeframe : Type 0 where
  one_min five_min fifteen_min one_hour one_day one_week thirty_days : AlertTimeframe
  other_timeframe : ℤ → AlertTimeframe

pub record Alert : Type 0 where
  pub created_at : ℕ
  pub updated_at : ℕ
  pub last_triggered_at : Option ℕ
  pub resolved_at : Option ℕ
  pub notification_sent_at : Option ℕ
  pub rule_name : Bytes
  pub description : Bytes
  pub status : AlertStatus
  pub id : ℕ
  pub project_id : ℕ
  pub team_id : ℕ
  pub threshold : ℤ
  pub condition : AlertCondition
  pub timeframe : AlertTimeframe
  pub high_priority : Bool

abbrev pub minute : ℕ
minute = 60 * 1_000_000_000

abbrev pub hour : ℕ
hour = 60 * minute

unfoldable pub timeframe_duration : AlertTimeframe → ℕ
timeframe_duration one_min = minute
timeframe_duration five_min = 5 * minute
timeframe_duration fifteen_min = 15 * minute
timeframe_duration one_hour = hour
timeframe_duration one_day = 24 * hour
timeframe_duration one_week = 7 * 24 * hour
timeframe_duration thirty_days = 30 * 24 * hour
timeframe_duration (other_timeframe n) = hour

unfoldable pub is_active : AlertStatus → Bool
is_active active = true
is_active _ = false

unfoldable pub is_triggered : AlertStatus → Bool
is_triggered triggered = true
is_triggered _ = false

-- `uint64(threshold)` of an int.
unfoldable pub to_uint64 : ℤ → ℕ
to_uint64 (pos n) = n % 2 ^ 64
to_uint64 (negsuc n) = 2 ^ 64 - 1 - n % 2 ^ 64

pub data ChannelType : Type 0 where
  webhook : ChannelType
  other_channel : Bytes → ChannelType

pub record NotificationChannel : Type 0 where
  pub created_at : ℕ
  pub updated_at : ℕ
  pub name : Bytes
  pub channel_type : ChannelType
  pub team_id : ℕ
  pub id : ℕ
  pub enabled : Bool

pub record WebhookConfig : Type 0 where
  pub created_at : ℕ
  pub updated_at : ℕ
  pub verified_at : Option ℕ
  pub url : Bytes
  pub secret_encrypted : Bytes
  pub id : ℕ
  pub channel_id : ℕ

pub data NotificationType : Type 0 where
  triggered_type resolved_type : NotificationType

pub data NotificationStatus : Type 0 where
  pending sent failed : NotificationStatus

pub record AlertNotification : Type 0 where
  pub created_at : ℕ
  pub sent_at : Option ℕ
  pub notification_type : NotificationType
  pub status : NotificationStatus
  pub error_message : Bytes
  pub id : ℕ
  pub alert_id : ℕ
  pub channel_id : ℕ
