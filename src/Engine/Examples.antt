-- ===== src/Engine/Examples.antt =====
-- Runs of the engine on three devices, and the theorems at them.
use nw_edit.Prelude.{
  ℕ, ◌≤◌, String, ◌≡◌, refl, ◌≢◌, ◌⊎◌, inl, true, false, none, some, List, [], ◌∷◌, pos, arith,
  ◌==◌, eq_iff, ltb, length, if◌then◌else◌,
}
use nw_edit.Result.{runtime_error}
use nw_edit.Dict
use nw_edit.Domain.Models.{
  completed, failed, cancelled, DeviceTarget, device_key, DeviceExecutionResult, result_of,
}
use nw_edit.Engine.Env.{Reply, returned, raised, Env, new_thread, Setup}
use nw_edit.Engine.Retry.{Task, run_with_retry}
use nw_edit.Engine.Retry.Verdict.{Verdict, run_with_retry-Verdict}
use nw_edit.Engine.Run.{ExecutionConfig, Job, World, Run, finished, failure, exhausted}
use nw_edit.Engine.Rounds.{rounds}
use nw_edit.Engine.RunJob.{run_job, first_run}
use nw_edit.Engine.Steps.Loop.{Ended, rounds-Ended}
use nw_edit.Engine.Scheduling.Distinct.{in_devices, in_flights, in_results, IsDistinct}
use nw_edit.Engine.Scheduling.Failure.{failure_stops}
use nw_edit.Engine.Scheduling.Cancellation.{cancel_stops}
use nw_edit.Engine.Results.Gate.{IsGated, canary_first}
use nw_edit.Engine.Results.LastEvent.{IsClosed, returned_is_announced}
use nw_edit.Engine.Results.Source.{Called, Source}
use nw_edit.Engine.Results.Provenance.{recorded_results_are_real, raised_by_worker}
use nw_edit.Engine.Results.Success.{completed_all_succeeded}
use nw_edit.Engine.Results.Termination.{run_job-total}

abbrev pub target : String → DeviceTarget
target host = record { host = host; port = pos 22 }

-- The device "b" always fails, the others succeed.
abbrev pub answer : ℕ → DeviceTarget → List String → List String → Reply
answer clock device commands verify_commands =
    returned (result_of (if device.host == "b" then "failed" else "success"))

abbrev pub calm : Env
calm = record {
  utc_now = λ n. "now";
  pause = λ n. false;
  cancel = λ n. false;
  reply = answer;
  format_seconds = λ n. "0.0";
}

abbrev pub setup : Setup
setup = record { publisher = true; control = true }

abbrev pub world : World
world = record { main = calm; thread = λ n. calm; done = λ n. (0, []) }

abbrev pub config : ExecutionConfig
config = record {
  concurrency_limit = 1;
  stagger_delay = 0;
  stop_on_error = true;
  non_canary_retry_limit = pos 1;
  retry_backoff_seconds = 0;
}

abbrev pub job_on : List DeviceTarget → Job
job_on devices = record {
  job_id = "j1";
  devices = devices;
  canary = target "a";
  commands_by_device = [];
  verify_commands_by_device = none;
  config = config;
  commands = none;
  verify_commands = none;
}

abbrev pub good_job : Job
good_job = job_on (target "a" ∷ target "c" ∷ target "d" ∷ [])

abbrev bad_job : Job
bad_job = job_on (target "a" ∷ target "b" ∷ target "c" ∷ [])

good_run :
    let out = run_job setup world good_job 1 4 in
    (out.0 ≡ finished) × (out.1.summary.status ≡ completed) × (length out.1.submitted ≡ 2)
unfolding run_job device_key Dict.put
good_run = (refl, refl, refl)

-- "b" fails, and "c" is not started.
bad_run :
    let out = run_job setup world bad_job 1 4 in
    (out.0 ≡ finished) × (out.1.summary.status ≡ failed) × (length out.1.submitted ≡ 1)
unfolding run_job device_key Dict.put
bad_run = (refl, refl, refl)

-- Two targets with one key, run at once: the first fails, what is pending is dropped, and the
-- second overwrites the failure with its success. The run is `completed` and "c" never ran.
abbrev twice_world : World
twice_world = record world {
  thread = λ n. record calm {
    reply = λ clock device commands verify_commands.
        returned (result_of (if ltb n 1 then "failed" else "success"));
  };
}

abbrev twice_job : Job
twice_job = record (job_on (target "a" ∷ target "b" ∷ target "b" ∷ target "c" ∷ [])) {
  config = record config { concurrency_limit = 2 };
}

twice_run :
    let out = run_job setup twice_world twice_job 1 5 in
    (out.0 ≡ finished)
    × (out.1.summary.status ≡ completed)
    × (Dict.get out.1.summary.device_results "c:22" ≡ none)
unfolding run_job device_key Dict.put Dict.get
twice_run = (refl, refl, refl)

canary_first_example : IsGated setup world bad_job (run_job setup world bad_job 1 4).1
canary_first_example = canary_first setup world bad_job 1 4

returned_is_announced_example : IsClosed setup world good_job (run_job setup world good_job 1 4).1
returned_is_announced_example = returned_is_announced setup world good_job refl 1 4 good_run.0

good_job_distinct : (k : String) → in_devices k good_job.devices ≤ 1
unfolding in_devices device_key
good_job_distinct k = ground (
  arith,
  eq_iff "a:22" k,
  eq_iff "c:22" k,
  eq_iff "d:22" k,
  eq_iff "a:22" "c:22",
  eq_iff "a:22" "d:22",
  eq_iff "c:22" "d:22",
)

d_is_target : 1 ≤ in_devices "d:22" good_job.devices
unfolding in_devices device_key
d_is_target = omega arith

completed_all_succeeded_example :
    (result : DeviceExecutionResult) × (Dict.get
        (run_job setup world good_job 1 4).1.summary.device_results
        "d:22"
      ≡ some result)
    × (result.status ≡ "success")
completed_all_succeeded_example =
    completed_all_succeeded setup world good_job (λ c d later on. on) good_job_distinct "d:22"
      d_is_target 1 4 good_run.0 good_run.1

run_job-total_example : (run_job setup world good_job 1 4).0 ≢ exhausted
run_job-total_example = run_job-total setup world good_job 1 4 (λ clock. inl refl) (omega arith)

abbrev retried : Task
retried = record {
  device = target "b";
  commands_by_device = [];
  verify_commands_by_device = none;
  retry_limit = pos 1;
  backoff = 0;
  job_id = some "j1";
}

run_with_retry-Verdict_example :
    Verdict setup calm retried 2 (run_with_retry setup calm retried new_thread).0
run_with_retry-Verdict_example = run_with_retry-Verdict setup calm retried new_thread

-- A run in which a failure is recorded and two devices are pending.
abbrev failed_start : Run
failed_start = record (first_run setup world bad_job) {
  summary = record (first_run setup world bad_job).summary {
    device_results = ("b:22", result_of "failed") ∷ [];
  };
  pending = target "c" ∷ target "d" ∷ [];
}

failed_start-IsDistinct : IsDistinct failed_start
unfolding in_devices in_flights in_results device_key
failed_start-IsDistinct = record {
  once = λ k. ground (
    arith,
    eq_iff "b:22" k,
    eq_iff "c:22" k,
    eq_iff "d:22" k,
    eq_iff "b:22" "c:22",
    eq_iff "b:22" "d:22",
    eq_iff "c:22" "d:22",
  );
}

failure_stops_example : (rounds setup world bad_job 1 4 failed_start).1.submitted ≡ []
failure_stops_example =
    failure_stops setup world bad_job 1 4 failed_start failed_start-IsDistinct refl refl

-- A user cancels before the round begins, and the flag stays set.
abbrev cancelled_world : World
cancelled_world = record world { main = record calm { cancel = λ look. true } }

abbrev cancelled_start : Run
cancelled_start = record failed_start {
  main = record { clock = 1; events = [] };
  summary = (first_run setup world good_job).summary;
}

cancel_stops_example :
    ((rounds setup cancelled_world good_job 1 4 cancelled_start).1.submitted ≡ [])
    × (((rounds setup cancelled_world good_job 1 4 cancelled_start).1.summary.status ≡ cancelled)
        ⊎ ((rounds setup cancelled_world good_job 1 4 cancelled_start).0 ≢ finished))
cancel_stops_example =
    cancel_stops setup cancelled_world good_job refl 0 (λ look later. refl) 1 4 cancelled_start
      (omega arith)

rounds-Ended_example :
    Ended setup world bad_job failed_start (rounds setup world bad_job 1 4 failed_start)
rounds-Ended_example = rounds-Ended setup world bad_job 1 4 failed_start

d_recorded :
    Dict.get (run_job setup world good_job 1 4).1.summary.device_results "d:22"
    ≡ some (result_of "success")
unfolding run_job device_key Dict.put Dict.get
d_recorded = refl

recorded_results_are_real_example : Source setup world good_job "d:22" (result_of "success")
recorded_results_are_real_example =
    recorded_results_are_real setup world good_job 1 4 "d:22" (result_of "success") d_recorded

-- A worker that raises when it is called for the canary.
abbrev breaking : Env
breaking = record calm { reply = λ clock device commands verify. raised (runtime_error "down") }

abbrev broken_world : World
broken_world = record world { main = breaking }

broken_run : (run_job setup broken_world good_job 1 4).0 ≡ failure (runtime_error "down")
unfolding run_job device_key
broken_run = refl

raised_by_worker_example :
    (k : String) × Called setup broken_world good_job k (raised (runtime_error "down"))
raised_by_worker_example =
    raised_by_worker setup broken_world good_job 1 4 (runtime_error "down") broken_run
