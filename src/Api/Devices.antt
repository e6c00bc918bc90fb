-- ===== src/Api/Devices.antt =====
-- The device endpoints and the status commands of backend_v2/app/api/main.py. A response about a
-- device has the fields of the device.
pub mod Answers
mod Examples
use nw_edit.Prelude.{
  ℕ, ◌+◌, String, Bool, true, false, ◌==◌, Option, none, some, List, [], ◌∷◌, ◌++◌, ℤ, map, length,
  join, if◌then◌else◌, is_empty, not,
}
use nw_edit.Result.{
  Error, value_error, lookup_error, runtime_error, netmiko_error, http_error, Result, ok, err,
}
use nw_edit.Text.Strip.{strip, lower}
use nw_edit.Domain.Models.{DeviceProfile, device_key}
use nw_edit.Stores.DeviceStore
use nw_edit.Netmiko.Session.{Remote, Session}
use nw_edit.Netmiko.Adapters.{params_of}
use nw_edit.Netmiko.Status.{parse_status_commands, run_status_commands}
use nw_edit.DeviceImport.Reader.{Records}
use nw_edit.DeviceImport.Row.{FailedRow, Entry, Loaded}
use nw_edit.DeviceImport.Validation.{Report}
use nw_edit.DeviceImport.Service.{
  DeviceImportResult, Outcome, returned, csv_raised, Imported, import_csv,
}
use nw_edit.Api.State.{App}

-- `resolve_worker_mode` and `resolve_validator_mode`, by the variable's value in the environment.
unfoldable pub resolve_mode : Option String → String
resolve_mode none = lower (strip "netmiko")
resolve_mode (some text) = lower (strip text)

-- The answers of `import_devices`: the devices, an HTTPException 400 with the failed rows, or the
-- `csv.Error` that goes through.
pub data ImportAnswer : Type 0 where
  imported : List DeviceProfile → ImportAnswer
  bad_rows : List FailedRow → ImportAnswer
  raised_error : String → ImportAnswer

unfoldable pub import_answer : Outcome → ImportAnswer
import_answer (csv_raised text) = raised_error text
import_answer (returned result) =
    if not (is_empty result.failed_rows)
    then bad_rows result.failed_rows
    else imported result.devices

-- An event of the NDJSON stream; `complete` also carries the number of its devices, twice.
pub data StreamEvent : Type 0 where
  report : Report → StreamEvent
  failed_rows_error : List FailedRow → StreamEvent
  complete : List DeviceProfile → StreamEvent
  exception_error : String → StreamEvent

unfoldable pub last_event : Outcome → StreamEvent
last_event (csv_raised text) = exception_error text
last_event (returned result) =
    if not (is_empty result.failed_rows)
    then failed_rows_error result.failed_rows
    else complete result.devices

module _ (csv_reader : String → Records) (loads : String → Loaded)
    (validate : DeviceProfile → Bool × Option String) (completion : List Entry → List ℕ) where
  unfoldable pub import_devices : String → App → ImportAnswer × App
  import_devices csv_content app =
      let done = import_csv csv_reader loads validate app.devices completion csv_content in
      (import_answer done.outcome, record app { devices = done.store })

  -- The events that the worker thread puts, which the stream yields.
  unfoldable pub import_devices_with_progress : String → App → List StreamEvent × App
  import_devices_with_progress csv_content app =
      let done = import_csv csv_reader loads validate app.devices completion csv_content in
      (map report done.reports ++ last_event done.outcome ∷ [], record app { devices = done.store })

unfoldable pub list_devices : App → List DeviceProfile
list_devices app = DeviceStore.list app.devices

simulated_outputs : List String → List String
simulated_outputs cmds = map (λ cmd. join "" ("$ " ∷ cmd ∷ "\n(simulated output)" ∷ [])) cmds

simulated_status : Result (List String) → Result String
unfolding simulated_outputs
simulated_status (err e) = err e
simulated_status (ok cmds) = ok (join "\n\n" (simulated_outputs cmds))

-- The `except` clauses of `execute_status_command`.
unfoldable pub status_answer : Result String → Result String
status_answer (ok output) = ok output
status_answer (err (value_error text)) = err (http_error 400 text)
status_answer (err (runtime_error text)) = err (http_error 502 text)
status_answer (err (lookup_error text)) = err (lookup_error text)
status_answer (err (netmiko_error text)) = err (netmiko_error text)
status_answer (err (http_error code text)) = err (http_error code text)

-- What the configured worker makes of the commands.
run_commands : Remote → String → String → DeviceProfile → Session → Result String × Session
unfolding simulated_status simulated_outputs
run_commands remote worker_mode commands profile session =
    if worker_mode == "netmiko"
    then run_status_commands remote (params_of profile) commands session
    else (simulated_status (parse_status_commands commands), session)

for_profile : Remote → String → String → Option DeviceProfile → Session → Result String × Session
unfolding run_commands
for_profile remote worker_mode commands none session =
    (err (http_error 404 "Device not found"), session)
for_profile remote worker_mode commands (some profile) session =
    let done = run_commands remote worker_mode commands profile session in
    (status_answer done.0, done.1)

-- `remote` is the connection to the device of the profile.
unfoldable pub execute_status_command :
    Remote → String → String → ℤ → String → App → Session → Result String × Session
unfolding for_profile
execute_status_command remote worker_mode host port commands app =
    for_profile remote worker_mode commands
      (DeviceStore.get_by_key app.devices (device_key host port))
