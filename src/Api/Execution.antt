-- ===== src/Api/Execution.antt =====
-- backend_v2/app/api/run_execution.py. Times of `utc_now` are arguments.
pub mod Finish
pub mod Answer
pub mod Moves
use nw_edit.Prelude.{ℕ, String, Bool, true, false, Option, none, some, List, [], ◌∷◌}
use nw_edit.Result.{Error, value_error, http_error, Result, ok, err}
use nw_edit.Domain.Models.{JobRecord, JobStatus, completed, failed, cancelled, JobRunSummary}
use nw_edit.Stores.JobStore
use nw_edit.Stores.EventStore
use nw_edit.Stores.EventStore.{ExecutionEvent, EventStore}
use nw_edit.Stores.RunStore
use nw_edit.Stores.ControlStore
use nw_edit.Stores.ControlStore.{ExecutionControl}
use nw_edit.JobService.{apply_event}
use nw_edit.Engine.Env.{Setup}
use nw_edit.Engine.Run.{Job, World, Run, Ending, finished, failure, exhausted}
use nw_edit.Engine.RunJob.{run_job}
use nw_edit.Api.State.{App, Handler}

-- `SUMMARY_EVENT_BY_STATUS.get(summary.status.value)`.
abbrev pub summary_event : JobStatus → Option String
summary_event completed = some "complete"
summary_event cancelled = some "cancel"
summary_event failed = some "fail"
summary_event _ = none

-- `except ValueError as exc: raise HTTPException(status_code=code, ...)`.
abbrev pub as_http : ℕ → Error → Error
as_http code (value_error text) = http_error code text
as_http code other = other

abbrev pub clear_flags : ExecutionControl → ExecutionControl
clear_flags control = record { pause_event = false; cancel_event = false }

unfoldable pub reset_started :
    String → App → Result (JobRecord × JobStore.JobStore) → Result ExecutionControl × App
reset_started job_id app (err e) = (err (as_http 409 e), app)
reset_started job_id app (ok (job, jobs)) =
    let (control, controls) = ControlStore.get_or_create app.controls job_id in
    let control' = clear_flags control in
    (
      ok control',
      record app { jobs = jobs; controls = ControlStore.set_control controls job_id control' },
    )

unfoldable pub reset_run_control : String → String → Handler ExecutionControl
unfolding reset_started
reset_run_control now job_id app =
    reset_started job_id app (apply_event now app.jobs job_id "start")

-- The `try` around the last `apply_event`: a ValueError is passed over.
after_event :
    JobRunSummary → App → Result (JobRecord × JobStore.JobStore) → Result JobRunSummary × App
after_event summary app (ok (job, jobs)) = (ok summary, record app { jobs = jobs })
after_event summary app (err (value_error text)) = (ok summary, app)
after_event summary app (err e) = (err e, app)

notify : String → String → JobRunSummary → App → Option String → Result JobRunSummary × App
unfolding after_event
notify now job_id summary app none = (ok summary, app)
notify now job_id summary app (some event_name) =
    after_event summary app (apply_event now app.jobs job_id event_name)

-- What follows the call of the engine, in the state that the application is in by then.
unfoldable pub finish_run : String → String → JobRunSummary → Handler JobRunSummary
unfolding notify
finish_run now job_id summary app =
    notify now job_id summary (record app { runs = RunStore.save app.runs summary })
      (summary_event summary.status)

-- `_emit` publishes to the application's event store.
unfoldable pub publish_all : List ExecutionEvent → EventStore → EventStore
publish_all [] store = store
publish_all (event ∷ events) store = publish_all events (EventStore.publish store event)

-- The engine's answer: nothing that it raises is caught. `none`: the model's fuel ran out.
run_outcome : String → String → Ending × Run → App → Option (Result JobRunSummary × App)
run_outcome now job_id (finished, run) app = some (finish_run now job_id run.summary app)
run_outcome now job_id (failure e, run) app = some (err e, app)
run_outcome now job_id (exhausted, run) app = none

-- `meanwhile` is what other requests do to the application during the run, and `published` are the
-- events of the engine's threads in the order in which they reach the event store.
unfoldable pub execute_prepared_run :
    Setup
    → World
    → (polls fuel : ℕ) → (now : String) → (meanwhile : App → App)
    → (published : List ExecutionEvent) → Job
    → App
    → Option (Result JobRunSummary × App)
unfolding run_outcome
execute_prepared_run setup world polls fuel now meanwhile published job app =
    let (control, controls) = ControlStore.get_or_create app.controls job.job_id in
    let during = meanwhile (record app { controls = controls }) in
    let over = record during { events = publish_all published during.events } in
    run_outcome now job.job_id (run_job setup world job polls fuel) over

unfoldable pub publish_job_status : String → String → String → String → EventStore → EventStore
publish_job_status now job_id status message store = EventStore.publish store (record {
  type = "job_status";
  job_id = job_id;
  timestamp = now;
  device = none;
  status = some status;
  message = some message;
})

abbrev pub request_pause : ExecutionControl → ExecutionControl
request_pause control = record control { pause_event = true }

abbrev pub request_resume : ExecutionControl → ExecutionControl
request_resume control = record control { pause_event = false }

abbrev pub request_cancel : ExecutionControl → ExecutionControl
request_cancel control = record control { cancel_event = true; pause_event = false }

control_applied :
    String
    → String
    → String
    → String
    → App
    → Result (JobRecord × JobStore.JobStore)
    → Result JobRecord × App
control_applied now job_id status message app (err e) = (err (as_http 400 e), app)
control_applied now job_id status message app (ok (job, jobs)) = (
  ok job,
  record app { jobs = jobs; events = publish_job_status now job_id status message app.events },
)

-- One control action: the event, the status and message that it publishes, and what it does to the
-- flags.
pub record Action : Type 0 where
  pub event_name : String
  pub status : String
  pub message : String
  pub mutate_control : ExecutionControl → ExecutionControl

control_found : String → String → Action → App → Option ExecutionControl → Result JobRecord × App
unfolding control_applied
control_found now job_id action app none = (err (http_error 409 "No run control available"), app)
control_found now job_id action app (some control) =
    let controls = ControlStore.set_control app.controls job_id (action.mutate_control control) in
    control_applied now job_id action.status action.message (record app { controls = controls })
      (apply_event now app.jobs job_id action.event_name)

job_found : String → String → Action → App → Option JobRecord → Result JobRecord × App
unfolding control_found
job_found now job_id action app none = (err (http_error 404 "Job not found"), app)
job_found now job_id action app (some job) =
    control_found now job_id action app (ControlStore.get app.controls job_id)

unfoldable pub apply_control_action : String → String → Action → Handler JobRecord
unfolding job_found
apply_control_action now job_id action app =
    job_found now job_id action app (JobStore.get app.jobs job_id)
