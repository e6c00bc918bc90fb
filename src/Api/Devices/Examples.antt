-- ===== src/Api/Devices/Examples.antt =====
-- A device is imported and asked for its version.
use nw_edit.Prelude.{String, refl, Bool, true, false, Option, none, [], ◌∷◌, pos}
use nw_edit.Domain.Models.{DeviceProfile}
use nw_edit.Netmiko.Session.{done, Remote, new_session}
use nw_edit.DeviceImport.Reader.{Records}
use nw_edit.DeviceImport.Row.{Loaded, no_object}
use nw_edit.DeviceImport.Service.Sequence.{one_by_one, one_by_one-Permᴰ}
use nw_edit.Api.State.{App, new_app}
use nw_edit.Api.Devices.{import_devices, execute_status_command}
use nw_edit.Api.Devices.Answers.{
  IsAnswered, import_devices-IsAnswered, IsRest, execute_status_command-IsRest,
}

abbrev table : String → Records
table text = record {
  records =
      ("host" ∷ "device_type" ∷ "username" ∷ "password" ∷ [])
      ∷ ("r1" ∷ "cisco_ios" ∷ "admin" ∷ "pw" ∷ [])
      ∷ [];
  csv_error = none;
}

abbrev no_json : String → Loaded
no_json text = no_object

abbrev reachable : DeviceProfile → Bool × Option String
reachable device = (true, none)

abbrev after_import : App
after_import = (import_devices table no_json reachable one_by_one "host,device_type,..." new_app).1

import_devices-IsAnswered_example :
    IsAnswered new_app
      (import_devices table no_json reachable one_by_one "host,device_type,..." new_app).0
      after_import
import_devices-IsAnswered_example =
    import_devices-IsAnswered table no_json reachable one_by_one (λ entries. one_by_one-Permᴰ _)
      "host,device_type,..." new_app

abbrev answering : Remote
answering = record {
  has_cancel_event = false;
  cancel = λ n. false;
  elapsed = λ n. n;
  connect = λ n params. done tt;
  find_prompt = λ n. done "r1#";
  send_command = λ n command. done command;
  send_config_set = λ n commands. done "";
  disconnect = λ n. done tt;
  unified_diff = λ pre post. [];
}

execute_status_command-IsRest_example : IsRest (
    execute_status_command answering "netmiko" "r1"
      (pos 22)
      "show version"
      after_import
      new_session)
execute_status_command-IsRest_example =
    execute_status_command-IsRest answering "netmiko" new_session "r1" (pos 22) "show version"
      after_import refl refl
