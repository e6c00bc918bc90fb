-- ===== src/Api/Preparation/Examples.antt =====
-- A request for one of two imported devices.
use nw_edit.Prelude.{String, ◌≡◌, refl, true, false, none, some, [], ◌∷◌, pos}
use nw_edit.Result.{ok}
use nw_edit.Dict
use nw_edit.Dict.{Dict}
use nw_edit.Domain.Models.{queued, DeviceProfile, device_key, JobRecord}
use nw_edit.Stores.JobStore
use nw_edit.Stores.JobStore.{JobStore}
use nw_edit.Stores.DeviceStore
use nw_edit.Stores.DeviceStore.{DeviceStore}
use mathlib.Core.List.{flat_map}
use nw_edit.Text.Chars.{is_space, is_letter, is_digit, lower_char}
use nw_edit.Text.Strip.{strip, lstrip, rstrip, lower, size, first_chars}
use nw_edit.Text.Regex.{matches, is_word, is_name_start}
use nw_edit.CommandTemplate.{
  pieces, replaced, rendered, missing_of, render_command, render_commands,
}
use nw_edit.Api.Preparation.{
  RunJobRequest, PreparedRun, refuse_if, given, is_target, resolve_run_targets, mode_of,
  verify_commands_of, prepare_devices, scoped, prepare_run,
}
use nw_edit.Api.Preparation.Substituted.{IsSubstituted, prepare_run-IsSubstituted}

abbrev profile : String → DeviceProfile
profile host = record {
  host = host;
  device_type = "ios";
  username = "me";
  password = "secret";
  port = pos 22;
  name = none;
  verify_cmds = "show run" ∷ [];
  host_vars = ("ntp", "10.0.0.2") ∷ [];
  prod = false;
  connection_ok = true;
  error_message = none;
}

abbrev store : DeviceStore
store = profile "a" ∷ profile "b" ∷ []

abbrev job : JobRecord
job = record {
  job_id = "j1";
  job_name = "job";
  creator = "me";
  status = queued;
  created_at = "now";
  global_vars = ("ntp", "10.0.0.1") ∷ [];
  started_at = none;
  completed_at = none;
}

abbrev jobs : JobStore
jobs = ("j1", job) ∷ []

abbrev request : RunJobRequest
request = record {
  canary = some (record { host = "a"; port = pos 22 });
  commands = "ntp server {{ ntp }}" ∷ [];
  command_scope = "canary";
  verify_commands = none;
  verify_mode = "all";
  imported_device_keys = some ("a:22" ∷ "b:22" ∷ []);
  config = record {
    concurrency_limit = 5;
    stagger_delay = 0;
    stop_on_error = true;
    non_canary_retry_limit = pos 1;
    retry_backoff_seconds = 0;
  };
  has_devices = false;
}

abbrev prepared : PreparedRun
prepared = record {
  job = job;
  devices = record { host = "a"; port = pos 22 } ∷ [];
  canary = record { host = "a"; port = pos 22 };
  commands_by_device = ("a:22", "ntp server 10.0.0.2" ∷ []) ∷ [];
  verify_commands_by_device = ("a:22", "show run" ∷ []) ∷ [];
  config = request.config;
}

succeeds : prepare_run "j1" request jobs store ≡ ok prepared
unfolding prepare_run resolve_run_targets refuse_if given is_target mode_of verify_commands_of
    prepare_devices scoped JobStore.get DeviceStore.list DeviceStore.get_by_key Dict.get Dict.put
    Dict.update device_key lower strip rstrip lstrip is_space lower_char render_commands
    render_command missing_of pieces flat_map matches rendered replaced first_chars size
    is_name_start is_word is_letter is_digit
succeeds = refl

prepare_run-IsSubstituted_example : IsSubstituted "j1" request jobs store prepared
prepare_run-IsSubstituted_example =
    prepare_run-IsSubstituted "j1" request jobs store prepared succeeds
