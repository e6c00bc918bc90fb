-- ===== src/Api/Runs.antt =====
-- The two endpoints of backend_v2/app/api/main.py that run a job, and the coordinator of
-- backend_v2/app/infrastructure/run_coordinator.py. A thread of the coordinator is the job it runs
-- and whether it is alive.
pub mod Single
pub mod Answer
mod Examples
use nw_edit.Prelude.{
  ℕ, String, Bool, true, false, Option, none, some, List, [], ◌∷◌, or_default, filter,
  if◌then◌else◌,
}
use nw_edit.Result.{Error, http_error, Result, ok, err}
use nw_edit.Dict
use nw_edit.Dict.{Dict}
use nw_edit.Domain.Models.{JobRecord, JobRunSummary}
use nw_edit.Stores.JobStore
use nw_edit.Stores.EventStore.{ExecutionEvent}
use nw_edit.Stores.ControlStore.{ExecutionControl}
use nw_edit.Engine.Env.{Setup}
use nw_edit.Engine.Run.{Job, World}
use nw_edit.Api.State.{App, Handler}
use nw_edit.Api.Execution.{reset_run_control, execute_prepared_run, publish_job_status}
use nw_edit.Api.Preparation.{RunJobRequest, PreparedRun, prepare_run}

-- The call of the engine: `commands=payload.commands`, `list(payload.verify_commands or [])`.
unfoldable pub engine_job : String → RunJobRequest → PreparedRun → Job
engine_job job_id payload prepared = record {
  job_id = job_id;
  devices = prepared.devices;
  canary = prepared.canary;
  commands_by_device = prepared.commands_by_device;
  verify_commands_by_device = some prepared.verify_commands_by_device;
  config = prepared.config;
  commands = some payload.commands;
  verify_commands = some (or_default payload.verify_commands []);
}

-- `_threads` with `is_alive()` of each.
abbrev pub RunCoordinator : Type 0
RunCoordinator = List (String × Bool)

unfoldable pub cleanup_dead : RunCoordinator → RunCoordinator
cleanup_dead threads = filter (λ thread. thread.1) threads

-- The answer and the threads after `is_running`.
unfoldable pub is_running : String → RunCoordinator → Bool × RunCoordinator
is_running job_id threads =
    let alive = cleanup_dead threads in
    (Dict.contains (filter (λ thread. thread.1) alive) job_id, alive)

-- The answer and the threads after `start`; the new thread is alive.
unfoldable pub start_run : String → RunCoordinator → Bool × RunCoordinator
start_run job_id threads =
    let alive = cleanup_dead threads in
    if Dict.contains alive job_id then (false, alive) else (true, Dict.put alive job_id true)

after_reset :
    Setup
    → World
    → (polls fuel : ℕ) → (now : String) → (App → App)
    → List ExecutionEvent
    → Job
    → Result ExecutionControl × App
    → Option (Result JobRunSummary × App)
after_reset setup world polls fuel now meanwhile published job (err e, app) = some (err e, app)
after_reset setup world polls fuel now meanwhile published job (ok control, app) =
    execute_prepared_run setup world polls fuel now meanwhile published job app

after_preparation :
    Setup
    → World
    → (polls fuel : ℕ) → (started now : String) → (App → App)
    → List ExecutionEvent
    → String
    → RunJobRequest
    → App
    → Result PreparedRun
    → Option (Result JobRunSummary × App)
unfolding after_reset
after_preparation setup world polls fuel started now meanwhile published job_id payload app
      (err e) =
    some (err e, app)
after_preparation setup world polls fuel started now meanwhile published job_id payload app
      (ok prepared) =
    after_reset setup world polls fuel now meanwhile published (engine_job job_id payload prepared)
      (reset_run_control started job_id app)

-- `none`: the model's fuel ran out.
unfoldable pub run_job :
    Setup
    → World
    → (polls fuel : ℕ) → (started now : String) → (App → App)
    → List ExecutionEvent
    → String
    → RunJobRequest
    → App
    → Option (Result JobRunSummary × App)
unfolding after_preparation
run_job setup world polls fuel started now meanwhile published job_id payload app =
    after_preparation setup world polls fuel started now meanwhile published job_id payload app
      (prepare_run job_id payload app.jobs app.devices)

-- What follows the coordinator's answer. The new thread runs at the same time: what it does to
-- the application before the answer is `meanwhile`.
after_start :
    (now : String)
    → (App → App)
    → String
    → App
    → Bool × RunCoordinator
    → Result JobRecord × (App × RunCoordinator)
after_start now meanwhile job_id app (false, threads) =
    (err (http_error 409 "Job run already in progress"), (app, threads))
after_start now meanwhile job_id app (true, threads) =
    let during = meanwhile app in
    let events = publish_job_status now job_id "running" "Async run started" during.events in
    (
      elim (JobStore.get during.jobs job_id) [
        | none ↦ err (http_error 404 "Job not found")
        | some fresh ↦ ok fresh
      ],
      (record during { events = events }, threads),
    )

after_async_reset :
    (now : String)
    → (App → App)
    → String
    → RunCoordinator
    → Result ExecutionControl × App
    → Result JobRecord × (App × RunCoordinator)
unfolding after_start
after_async_reset now meanwhile job_id threads (err e, app) = (err e, (app, threads))
after_async_reset now meanwhile job_id threads (ok control, app) =
    after_start now meanwhile job_id app (start_run job_id threads)

after_async_preparation :
    (started now : String)
    → (App → App)
    → String
    → App
    → RunCoordinator
    → Result PreparedRun
    → Result JobRecord × (App × RunCoordinator)
unfolding after_async_reset
after_async_preparation started now meanwhile job_id app threads (err e) = (err e, (app, threads))
after_async_preparation started now meanwhile job_id app threads (ok prepared) =
    after_async_reset now meanwhile job_id threads (reset_run_control started job_id app)

unfoldable pub run_job_async :
    (started now : String)
    → (App → App)
    → String
    → RunJobRequest
    → App
    → RunCoordinator
    → Result JobRecord × (App × RunCoordinator)
unfolding after_async_preparation
run_job_async started now meanwhile job_id payload app threads =
    after_async_preparation started now meanwhile job_id app threads
      (prepare_run job_id payload app.jobs app.devices)
