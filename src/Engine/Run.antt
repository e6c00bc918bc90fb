-- ===== src/Engine/Run.antt =====
-- The state of `run_job` of execution_engine.py, and the steps that its parts share.
use nw_edit.Prelude.{
  ℕ, zero, suc, String, Bool, ◌&&◌, Option, none, some, List, [], ◌∷◌, ◌++◌, ℤ, leb, max, ◌==◌, not,
  length, any, if◌then◌else◌,
}
use nw_edit.Result.{Error}
use nw_edit.Dict
use nw_edit.Dict.{Dict}
use nw_edit.Domain.Models.{
  JobStatus, status_value, DeviceTarget, target_key, DeviceExecutionResult, JobRunSummary,
}
use nw_edit.Engine.Env.{Reply, Env, Thread, new_thread, Setup, tick, cancel_seen, emit}
use nw_edit.Engine.Retry.{Task, run_with_retry}

-- `ExecutionConfig`; the two floats are in milliseconds.
pub record ExecutionConfig : Type 0 where
  pub concurrency_limit : ℕ
  pub stagger_delay : ℕ
  pub stop_on_error : Bool
  pub non_canary_retry_limit : ℤ
  pub retry_backoff_seconds : ℕ

-- The arguments of `run_job`; `commands or []` is taken where the summary is built.
pub record Job : Type 0 where
  pub job_id : String
  pub devices : List DeviceTarget
  pub canary : DeviceTarget
  pub commands_by_device : Dict (List String)
  pub verify_commands_by_device : Option (Dict (List String))
  pub config : ExecutionConfig
  pub commands : Option (List String)
  pub verify_commands : Option (List String)

-- A submitted call, numbered in the order of submission: the future and the device it stands for.
pub record Flight : Type 0 where
  pub future : ℕ
  pub device : DeviceTarget

-- The surroundings of a run: those of the engine's own thread, those of the thread that runs each
-- future, and the answers of `wait`. An answer lists which futures are done, in the order in which
-- the loop takes them: each number is a place among those in flight that are left, and a place
-- past the end is the last one. There is always a first, since `wait` returns with one done.
pub record World : Type 0 where
  pub main : Env
  pub thread : ℕ → Env
  pub done : ℕ → ℕ × List ℕ

-- The local variables of `run_job`, and what the executor was given.
pub record Run : Type 0 where
  pub main : Thread
  pub summary : JobRunSummary
  pub pending : List DeviceTarget
  pub in_flight : List Flight
  pub submitted : List Flight

-- `run_job` returns its summary or raises. `exhausted` is the model's: the fuel ran out.
pub data Ending : Type 0 where
  finished : Ending
  failure : Error → Ending
  exhausted : Ending

abbrev pub is_failure : DeviceExecutionResult → Bool
is_failure result = not (result.status == "success")

-- `any(r.status != "success" for r in summary.device_results.values())`.
abbrev pub has_failure : JobRunSummary → Bool
has_failure summary = any is_failure (Dict.values summary.device_results)

module _ (setup : Setup) (world : World) (job : Job) where
  abbrev pub say : Run → String → Option String → Option String → Option String → Run
  say run event_type device status message = record run {
    main = emit setup world.main run.main event_type job.job_id device status message;
  }

  abbrev pub canary_key : String
  canary_key = target_key job.canary

  abbrev pub limit : ℕ
  limit = max 1 job.config.concurrency_limit

  -- Sets the summary's status, publishes `job_complete` with it, and returns.
  unfoldable pub complete_as : JobStatus → Run → Ending × Run
  complete_as status run =
      let run' = record run { summary = record run.summary { status = status } } in
      (finished, say run' "job_complete" none (some (status_value status)) none)

  -- `summary.device_results[device.key] = result`, and its `device_status` event.
  unfoldable pub record_result : DeviceTarget → DeviceExecutionResult → Run → Run
  record_result device result run =
      let results = Dict.put run.summary.device_results (target_key device) result in
      let run' = record run { summary = record run.summary { device_results = results } } in
      say run' "device_status" (some (target_key device)) (some result.status) result.error

  abbrev pub task_of : DeviceTarget → ℤ → ℕ → Task
  task_of device retry_limit backoff = record {
    device = device;
    commands_by_device = job.commands_by_device;
    verify_commands_by_device = job.verify_commands_by_device;
    retry_limit = retry_limit;
    backoff = backoff;
    job_id = some job.job_id;
  }

  -- The call that a future stands for: a thread of its own runs it from the start.
  unfoldable pub flight_outcome : Flight → Reply × Thread
  unfolding run_with_retry
  flight_outcome flight =
      run_with_retry setup (world.thread flight.future)
        (task_of flight.device job.config.non_canary_retry_limit job.config.retry_backoff_seconds)
        new_thread

  -- Publishes the start of a device and submits its call.
  unfoldable pub launch : DeviceTarget → Run → Run
  launch device run =
      let flight : Flight = record { future = length run.submitted; device = device } in
      let run' = say run "device_status" (some (target_key device)) (some "running") none in
      record run' {
        in_flight = run.in_flight ++ flight ∷ [];
        submitted = run.submitted ++ flight ∷ [];
      }

  -- The inner `while pending_devices and len(in_flight) < concurrency`, over `pending_devices`.
  unfoldable pub fill : List DeviceTarget → Run → Run
  unfolding launch
  fill [] run = record run { pending = [] }
  fill (device ∷ rest) run =
      if leb limit (length run.in_flight)
      then record run { pending = device ∷ rest }
      else if job.config.stop_on_error && has_failure run.summary
      then record run { pending = [] }
      else if cancel_seen setup world.main run.main
      then record run { pending = []; main = tick run.main }
      else fill rest (launch device (record run { main = tick run.main }))

-- Takes the flight at a place out of a list that is not empty; a place past the end is the last.
unfoldable pub take_out : ℕ → Flight → List Flight → Flight × List Flight
take_out place flight [] = (flight, [])
take_out zero flight (other ∷ flights) = (flight, other ∷ flights)
take_out (suc place) flight (other ∷ flights) =
    let (taken, left) = take_out place other flights in (taken, flight ∷ left)
