-- ===== src/Netmiko/Adapters.antt =====
-- backend_v2/app/infrastructure/netmiko_device_worker.py, simulated_device_worker.py and
-- device_connection_validators.py. The surroundings of a call of netmiko and the configured delay are
-- arguments.
use nw_edit.Prelude.{
  ◌≡◌, refl, String, Bool, true, false, Option, none, some, List, [], ◌∷◌, or_default, join, length,
  show,
}
use nw_edit.Domain.Models.{
  DeviceProfile, DeviceTarget, target_key, DeviceExecutionResult, result_of,
}
use nw_edit.Stores.DeviceStore
use nw_edit.Stores.DeviceStore.{DeviceStore}
use nw_edit.Netmiko.Session.{
  DeviceParams, Outcome, done, raised, Remote, Output, Session, new_session,
}
use nw_edit.Netmiko.Execute.{execute_device_commands}
use nw_edit.Netmiko.Status.{validate_device_connection}

abbrev pub params_of : DeviceProfile → DeviceParams
params_of profile = record {
  host = profile.host;
  port = profile.port;
  device_type = profile.device_type;
  username = profile.username;
  password = profile.password;
}

-- The result made of the executor's dictionary; the number of attempts is left at its default.
abbrev pub result_from : Output → DeviceExecutionResult
result_from output = record (result_of output.status) {
  logs = output.logs;
  error = output.error;
  error_code = output.error_code;
  pre_output = output.pre_output;
  apply_output = output.apply_output;
  post_output = output.post_output;
  diff = output.diff;
  diff_truncated = output.diff_truncated;
  diff_original_size = output.diff_original_size;
  log_trimmed = output.log_trimmed;
}

-- The answer of the executor, or what it raises.
unfoldable pub result_of_run : Outcome (Unit {0}) × Session → Outcome DeviceExecutionResult
result_of_run (done nothing, s) = done (result_from s.result)
result_of_run (raised fault, s) = raised fault

pub result_of_run-returns :
    (out : Outcome (Unit {0}) × Session)
    → out.0 ≡ done tt
    → result_of_run out ≡ done (result_from out.1.result)
unfolding result_of_run
result_of_run-returns (done nothing, s) e = refl
result_of_run-returns (raised fault, s) e = cc

abbrev pub failed_for : DeviceTarget → DeviceExecutionResult
failed_for device = record (result_of "failed") {
  error = some (join "" ("Device profile not found for " ∷ target_key device ∷ []));
}

with_profile :
    Remote
    → DeviceTarget
    → List String
    → Option (List String)
    → Option DeviceProfile
    → Outcome DeviceExecutionResult
unfolding result_of_run
with_profile remote device commands verify_commands none = done (failed_for device)
with_profile remote device commands verify_commands (some profile) =
    let verify = or_default verify_commands profile.verify_cmds in
    result_of_run (execute_device_commands remote (params_of profile) commands verify true false)

-- `NetmikoDeviceWorker.run`, with `get_by_key` of the device store as its resolver. It has no cancel
-- event.
unfoldable pub run_netmiko :
    Remote
    → DeviceStore
    → DeviceTarget
    → List String
    → Option (List String)
    → Outcome DeviceExecutionResult
unfolding with_profile
run_netmiko remote store device commands verify_commands =
    with_profile (record remote { has_cancel_event = false }) device commands verify_commands
      (DeviceStore.get_by_key store (target_key device))

-- `SimulatedDeviceWorker.run`; the delay is a sleep.
unfoldable pub run_simulated :
    DeviceTarget → List String → Option (List String) → DeviceExecutionResult
run_simulated device commands verify_commands = record (result_of "success") {
  logs =
      join "" (
        "simulated apply on "
        ∷ target_key device
        ∷ ": "
        ∷ show (length commands)
        ∷ " commands"
        ∷ [])
      ∷ [];
}

-- `SimulatedConnectionValidator.validate`.
unfoldable pub validate_simulated : DeviceProfile → Bool × Option String
validate_simulated device = (true, none)

-- `NetmikoConnectionValidator.validate`.
unfoldable pub validate_netmiko : Remote → DeviceProfile → Bool × Option String
validate_netmiko remote device =
    (validate_device_connection remote (params_of device) new_session).0
