-- ===== src/Api/Wiring/Examples.antt =====
-- The application put together, in a run on two devices that answer.
use mathlib.Core.List.{flat_map}
use nw_edit.Prelude.{
  or_default, length, ◌≤◌, String, ◌≡◌, refl, true, false, Option, none, some, [], ◌∷◌, pos, arith,
  eq_iff,
}
use nw_edit.Result.{Result, ok}
use nw_edit.Dict
use nw_edit.Text.Strip.{strip, lstrip, rstrip, contains_text, lower, size, first_chars}
use nw_edit.Text.Split.{split}
use nw_edit.Text.Chars.{is_space, is_letter, is_digit, lower_char}
use nw_edit.Text.Regex.{matches, is_word, is_name_start}
use nw_edit.CommandTemplate.{
  pieces, replaced, rendered, missing_of, render_command, render_commands,
}
use nw_edit.Domain.Models.{
  queued, completed, JobRecord, DeviceTarget, target_key, device_key, DeviceProfile,
  DeviceExecutionResult, result_of, JobRunSummary,
}
use nw_edit.Stores.JobStore
use nw_edit.Stores.DeviceStore
use nw_edit.Stores.DeviceStore.{DeviceStore, get_by_key}
use nw_edit.Netmiko.Session.{done, Remote}
use nw_edit.Netmiko.Output.{check_for_errors, finalize_logs}
use nw_edit.Netmiko.Execute.{
  pre_connect, has_timed_out, connect_from, caught, converse, pre_verification,
  apply_configuration_commands, announce_commands, send_commands, post_verification,
  execute_device_commands,
}
use nw_edit.Engine.Env.{returned, Env, new_thread, Setup}
use nw_edit.Engine.Run.{Job, World, Run, finished, exhausted, fill}
use nw_edit.Engine.Rounds.{rounds}
use nw_edit.Engine.RunJob.{first_run, run_job}
use nw_edit.Engine.Scheduling.Distinct.{in_devices}
use nw_edit.Domain.StateMachine.{transition}
use nw_edit.JobService.{event_map, moved_job, apply_event}
use nw_edit.Api.Execution.{reset_run_control, execute_prepared_run, finish_run}
use nw_edit.Api.State.{App, new_app}
use nw_edit.Api.Preparation.{
  RunJobRequest, PreparedRun, refuse_if, given, is_target, resolve_run_targets, mode_of,
  verify_commands_of, merged_vars, prepare_devices, scoped, prepare_run,
}
use nw_edit.Api.Runs
use nw_edit.Api.Schemas.{accepts_target, accepts_run}
use nw_edit.Api.Schemas.Bounds.{accepted_attempts, accepted_in_flight}
use nw_edit.Api.Wiring.{Calls, cors_origins, worker_run, wired}
use nw_edit.Api.Wiring.Request.{IsDelivered, completed_request_configures}

abbrev answering : Remote
answering = record {
  has_cancel_event = false;
  cancel = λ n. false;
  elapsed = λ n. n;
  connect = λ n params. done tt;
  find_prompt = λ n. done "r1#";
  send_command = λ n command. done command;
  send_config_set = λ n commands. done "done";
  disconnect = λ n. done tt;
  unified_diff = λ pre post. post;
}

abbrev profile : String → DeviceProfile
profile host = record {
  host = host;
  device_type = "cisco_ios";
  username = "admin";
  password = "pw";
  port = pos 22;
  name = none;
  verify_cmds = [];
  host_vars = [];
  prod = false;
  connection_ok = true;
  error_message = none;
}

abbrev imported : DeviceStore
imported = profile "a" ∷ profile "c" ∷ []

abbrev calls : Calls
calls = record { main = λ n. (answering, imported); thread = λ n clock. (answering, imported) }

abbrev calm : Env
calm = record {
  utc_now = λ n. "now";
  pause = λ n. false;
  cancel = λ n. false;
  reply = λ n device commands verify_commands. returned (result_of "failed");
  format_seconds = λ n. "0.0";
}

abbrev bare : World
bare = record { main = calm; thread = λ n. calm; done = λ n. (0, []) }

abbrev setup : Setup
setup = record { publisher = true; control = true }

abbrev target : String → DeviceTarget
target host = record { host = host; port = pos 22 }

abbrev vlan_job : Job
vlan_job = record {
  job_id = "j1";
  devices = target "a" ∷ target "c" ∷ [];
  canary = target "a";
  commands_by_device = ("a:22", "vlan 10" ∷ []) ∷ ("c:22", "vlan 20" ∷ []) ∷ [];
  verify_commands_by_device = none;
  config = record {
    concurrency_limit = 1;
    stagger_delay = 0;
    stop_on_error = true;
    non_canary_retry_limit = pos 1;
    retry_backoff_seconds = 0;
  };
  commands = none;
  verify_commands = none;
}

vlan_run :
    let out = run_job setup (wired "netmiko" calls bare) vlan_job 1 3 in
    (out.0 ≡ finished) × (out.1.summary.status ≡ completed)
unfolding run_job device_key Dict.put Dict.get worker_run get_by_key execute_device_commands
    check_for_errors pre_connect has_timed_out connect_from caught converse pre_verification
    apply_configuration_commands announce_commands send_commands contains_text post_verification
    finalize_logs
vlan_run = (refl, refl)

vlan_job_distinct : (k : String) → in_devices k vlan_job.devices ≤ 1
unfolding in_devices device_key
vlan_job_distinct k = ground (arith, eq_iff "a:22" k, eq_iff "c:22" k, eq_iff "a:22" "c:22")

two_origins : cors_origins (some " http://a ,,http://b") ≡ "http://a" ∷ "http://b" ∷ []
unfolding cors_origins split strip lstrip rstrip is_space
two_origins = refl

-- A request to run the stored job on both devices.
abbrev stored_job : JobRecord
stored_job = record {
  job_id = "j1";
  job_name = "vlan";
  creator = "me";
  status = queued;
  created_at = "now";
  global_vars = [];
  started_at = none;
  completed_at = none;
}

abbrev app : App
app = record new_app { jobs = ("j1", stored_job) ∷ []; devices = imported }

abbrev request : RunJobRequest
request = record {
  canary = some (target "a");
  commands = "vlan 10" ∷ [];
  command_scope = "all";
  verify_commands = none;
  verify_mode = "all";
  imported_device_keys = some ("a:22" ∷ "c:22" ∷ []);
  config = vlan_job.config;
  has_devices = false;
}

abbrev prepared : PreparedRun
prepared = record {
  job = stored_job;
  devices = target "a" ∷ target "c" ∷ [];
  canary = target "a";
  commands_by_device = ("a:22", "vlan 10" ∷ []) ∷ ("c:22", "vlan 10" ∷ []) ∷ [];
  verify_commands_by_device = ("a:22", []) ∷ ("c:22", []) ∷ [];
  config = request.config;
}

request_prepared : prepare_run "j1" request app.jobs app.devices ≡ ok prepared
unfolding prepare_run resolve_run_targets refuse_if given is_target mode_of verify_commands_of
    prepare_devices scoped JobStore.get DeviceStore.list DeviceStore.get_by_key Dict.get Dict.put
    Dict.update device_key lower strip rstrip lstrip is_space lower_char render_commands
    render_command missing_of pieces flat_map matches rendered replaced first_chars size
    is_name_start is_word is_letter is_digit merged_vars
request_prepared = refl

abbrev requested : Option (Result JobRunSummary × App)
requested =
    Runs.run_job setup (wired "netmiko" calls bare) 1 3 "now" "later" (λ a. a) [] "j1" request app

abbrev answer_in : Option (Result JobRunSummary × App) → JobRunSummary
answer_in (some (ok summary, after)) = summary
answer_in _ = (run_job setup (wired "netmiko" calls bare) vlan_job 1 3).1.summary

abbrev after_in : Option (Result JobRunSummary × App) → App
after_in (some (answer, after)) = after
after_in none = app

request_answered :
    (requested ≡ some (ok (answer_in requested), after_in requested))
    × ((answer_in requested).status ≡ completed)
unfolding Runs.run_job prepare_run resolve_run_targets refuse_if given is_target mode_of
    verify_commands_of prepare_devices scoped JobStore.get DeviceStore.list DeviceStore.get_by_key
    Dict.get Dict.put Dict.update device_key lower strip rstrip lstrip is_space lower_char
    render_commands render_command missing_of pieces flat_map matches rendered replaced first_chars
    size is_name_start is_word is_letter is_digit merged_vars run_job worker_run
    execute_device_commands check_for_errors pre_connect has_timed_out connect_from caught converse
    pre_verification apply_configuration_commands announce_commands send_commands contains_text
    post_verification finalize_logs reset_run_control apply_event event_map transition
    execute_prepared_run Runs.engine_job finish_run JobStore.save moved_job
request_answered = (refl, refl)

prepared_distinct : (k : String) → in_devices k prepared.devices ≤ 1
prepared_distinct = vlan_job_distinct

c_listed : is_target (target_key (target "c")) prepared.devices ≡ true
unfolding is_target device_key
c_listed = refl

completed_request_configures_example :
    IsDelivered "j1" request app prepared (target "c") (answer_in requested)
completed_request_configures_example =
    completed_request_configures setup calls bare 1 3 "now" "later" (λ a. a) [] "j1" request app
      (after_in requested) (answer_in requested) prepared request_answered.0 request_prepared
      request_answered.1 (λ c d later on. on) prepared_distinct (target "c") c_listed

request_accepted : accepts_run request ≡ true
unfolding accepts_run accepts_target size
request_accepted = refl

abbrev requested_job : Job
unfolding Runs.engine_job
requested_job = Runs.engine_job "j1" request prepared

abbrev found_or_failed : Option DeviceExecutionResult → DeviceExecutionResult
found_or_failed found = or_default found (result_of "failed")

abbrev c_result : Option DeviceExecutionResult
c_result =
    Dict.get (run_job setup (wired "netmiko" calls bare) requested_job 1 3).1.summary.device_results
      "c:22"

c_recorded : c_result ≡ some (found_or_failed c_result)
unfolding run_job device_key Dict.put Dict.get worker_run get_by_key execute_device_commands
    check_for_errors pre_connect has_timed_out connect_from caught converse pre_verification
    apply_configuration_commands announce_commands send_commands contains_text post_verification
    finalize_logs Runs.engine_job
c_recorded = refl

accepted_attempts_example : (found_or_failed c_result).attempts ≤ 4
unfolding Runs.engine_job requested_job
accepted_attempts_example =
    accepted_attempts setup (wired "netmiko" calls bare) "j1" request app.jobs app.devices prepared
      request_accepted request_prepared 1 3 "c:22" (found_or_failed c_result) c_recorded

abbrev waiting : Run
waiting = record (first_run setup (wired "netmiko" calls bare) requested_job) {
  pending = prepared.devices;
}

abbrev round_left : Run
round_left = (rounds setup (wired "netmiko" calls bare) requested_job 1 1 waiting).1

-- One round has run the first device, and the loop goes on.
round_goes_on : (rounds setup (wired "netmiko" calls bare) requested_job 1 1 waiting).0 ≡ exhausted
unfolding rounds run_job device_key Dict.put Dict.get worker_run get_by_key execute_device_commands
    check_for_errors pre_connect has_timed_out connect_from caught converse pre_verification
    apply_configuration_commands announce_commands send_commands contains_text post_verification
    finalize_logs Runs.engine_job requested_job
round_goes_on = refl

accepted_in_flight_example :
    (length
        (fill setup
          (wired "netmiko" calls bare)
          requested_job
          round_left.pending
          (record round_left { main = new_thread })).in_flight
      ≤ 1)
    × (1 ≤ 100)
unfolding Runs.engine_job requested_job
accepted_in_flight_example =
    accepted_in_flight setup (wired "netmiko" calls bare) "j1" request app.jobs app.devices prepared
      request_accepted request_prepared 1 1 waiting new_thread refl round_goes_on
