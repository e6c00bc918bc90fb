-- ===== src/Api/Mappers.antt =====
-- backend_v2/app/api/mappers.py and the responses of backend_v2/app/api/schemas.py that it makes. The
-- handlers of the other modules answer with the domain's records, to which these functions are
-- applied last.
mod Examples
use nw_edit.Prelude.{ℕ, String, Bool, Option, List, [], ◌∷◌, map, or_default, ℤ}
use nw_edit.Dict.{Dict}
use nw_edit.Domain.Models.{
  JobRecord, status_value, DeviceExecutionResult, JobRunSummary, ExecutionPreset, DeviceProfile,
}

pub record JobResponse : Type 0 where
  pub job_id : String
  pub job_name : String
  pub creator : String
  pub status : String
  pub created_at : String
  pub global_vars : Dict String
  pub started_at : Option String
  pub completed_at : Option String

pub record DeviceRunResponse : Type 0 where
  pub status : String
  pub attempts : ℕ
  pub error : Option String
  pub error_code : Option String
  pub logs : List String
  pub pre_output : String
  pub apply_output : String
  pub post_output : String
  pub diff : String
  pub diff_truncated : Bool
  pub diff_original_size : ℕ
  pub log_trimmed : Bool

pub record RunJobResponse : Type 0 where
  pub job_id : String
  pub status : String
  pub commands : List String
  pub verify_commands : List String
  pub target_device_keys : List String
  pub device_results : Dict DeviceRunResponse

unfoldable pub to_job_response : JobRecord → JobResponse
to_job_response job = record {
  job_id = job.job_id;
  job_name = job.job_name;
  creator = job.creator;
  status = status_value job.status;
  created_at = job.created_at;
  global_vars = job.global_vars;
  started_at = job.started_at;
  completed_at = job.completed_at;
}

-- The response for one device of a run.
unfoldable pub device_run_response : DeviceExecutionResult → DeviceRunResponse
device_run_response result = record {
  status = result.status;
  attempts = result.attempts;
  error = result.error;
  error_code = result.error_code;
  logs = result.logs;
  pre_output = or_default result.pre_output "";
  apply_output = or_default result.apply_output "";
  post_output = or_default result.post_output "";
  diff = or_default result.diff "";
  diff_truncated = result.diff_truncated;
  diff_original_size = result.diff_original_size;
  log_trimmed = result.log_trimmed;
}

unfoldable pub to_run_response : JobRunSummary → RunJobResponse
to_run_response summary = record {
  job_id = summary.job_id;
  status = status_value summary.status;
  commands = summary.commands;
  verify_commands = summary.verify_commands;
  target_device_keys = summary.target_device_keys;
  device_results = map (λ entry. (entry.0, device_run_response entry.1)) summary.device_results;
}

pub record PresetResponse : Type 0 where
  pub preset_id : String
  pub name : String
  pub os_model : String
  pub commands : List String
  pub verify_commands : List String
  pub created_at : String
  pub updated_at : String

unfoldable pub to_preset_response : ExecutionPreset → PresetResponse
to_preset_response preset = record {
  preset_id = preset.preset_id;
  name = preset.name;
  os_model = preset.os_model;
  commands = preset.commands;
  verify_commands = preset.verify_commands;
  created_at = preset.created_at;
  updated_at = preset.updated_at;
}

pub record DeviceProfileResponse : Type 0 where
  pub host : String
  pub port : ℤ
  pub device_type : String
  pub username : String
  pub password : String
  pub name : Option String
  pub verify_cmds : List String
  pub host_vars : Dict String
  pub prod : Bool
  pub connection_ok : Bool
  pub error_message : Option String

unfoldable pub to_device_profile_response : DeviceProfile → DeviceProfileResponse
to_device_profile_response device = record {
  host = device.host;
  port = device.port;
  device_type = device.device_type;
  username = device.username;
  password = device.password;
  name = device.name;
  verify_cmds = device.verify_cmds;
  host_vars = device.host_vars;
  prod = device.prod;
  connection_ok = device.connection_ok;
  error_message = device.error_message;
}
