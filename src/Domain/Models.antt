-- ===== src/Domain/Models.antt =====
-- backend_v2/app/domain/models.py. Times are the texts of `utc_now`; `port` is a Python int.
use nw_edit.Prelude.{ℕ, String, Bool, true, false, Option, none, List, [], ◌∷◌, ℤ, join, show_int}
use nw_edit.Dict.{Dict}

pub data JobStatus : Type 0 where
  queued running paused completed failed cancelled : JobStatus

-- `JobStatus.value`.
abbrev pub status_value : JobStatus → String
status_value queued = "queued"
status_value running = "running"
status_value paused = "paused"
status_value completed = "completed"
status_value failed = "failed"
status_value cancelled = "cancelled"

-- Membership in `ACTIVE_JOB_STATUSES`.
abbrev pub is_active_job_status : JobStatus → Bool
is_active_job_status queued = true
is_active_job_status running = true
is_active_job_status paused = true
is_active_job_status _ = false

pub data JobEvent : Type 0 where
  start pause resume complete fail cancel : JobEvent

abbrev pub event_value : JobEvent → String
event_value start = "start"
event_value pause = "pause"
event_value resume = "resume"
event_value complete = "complete"
event_value fail = "fail"
event_value cancel = "cancel"

pub record JobTransition : Type 0 where
  pub current : JobStatus
  pub event : JobEvent
  pub next_status : JobStatus

pub record JobRecord : Type 0 where
  pub job_id : String
  pub job_name : String
  pub creator : String
  pub status : JobStatus
  pub created_at : String
  pub global_vars : Dict String
  pub started_at : Option String
  pub completed_at : Option String

unfoldable pub is_active_job : JobRecord → Bool
is_active_job job = is_active_job_status job.status

pub record DeviceTarget : Type 0 where
  pub host : String
  pub port : ℤ

-- f"{host}:{port}", the `key` of a target and of a profile.
unfoldable pub device_key : String → ℤ → String
unfolding join show_int
device_key host port = join "" (host ∷ ":" ∷ show_int port ∷ [])

abbrev pub target_key : DeviceTarget → String
target_key device = device_key device.host device.port

-- `status` is a free text in the source: "success", "failed", "cancelled" are the ones in use.
pub record DeviceExecutionResult : Type 0 where
  pub status : String
  pub logs : List String
  pub error : Option String
  pub error_code : Option String
  pub attempts : ℕ
  pub pre_output : Option String
  pub apply_output : Option String
  pub post_output : Option String
  pub diff : Option String
  pub diff_truncated : Bool
  pub diff_original_size : ℕ
  pub log_trimmed : Bool

-- `DeviceExecutionResult(status=status)`: the dataclass's defaults.
abbrev pub result_of : String → DeviceExecutionResult
result_of status = record {
  status = status;
  logs = [];
  error = none;
  error_code = none;
  attempts = 1;
  pre_output = none;
  apply_output = none;
  post_output = none;
  diff = none;
  diff_truncated = false;
  diff_original_size = 0;
  log_trimmed = false;
}

pub record JobRunSummary : Type 0 where
  pub job_id : String
  pub status : JobStatus
  pub device_results : Dict DeviceExecutionResult
  pub commands : List String
  pub verify_commands : List String
  pub target_device_keys : List String

pub record ExecutionPreset : Type 0 where
  pub preset_id : String
  pub name : String
  pub os_model : String
  pub commands : List String
  pub verify_commands : List String
  pub created_at : String
  pub updated_at : String

pub record DeviceProfile : Type 0 where
  pub host : String
  pub device_type : String
  pub username : String
  pub password : String
  pub port : ℤ
  pub name : Option String
  pub verify_cmds : List String
  pub host_vars : Dict String
  pub prod : Bool
  pub connection_ok : Bool
  pub error_message : Option String

abbrev pub profile_key : DeviceProfile → String
profile_key device = device_key device.host device.port
