-- ===== src/Api/Execution/Moves.antt =====
-- The jobs change in a run and in its control by events of the state machine alone.
use nw_edit.Prelude.{String, ◌≡◌, refl, Option, none, some}
use nw_edit.Result.{value_error, Result, ok, err}
use nw_edit.Domain.Models.{JobRecord, JobRunSummary}
use nw_edit.Stores.JobStore
use nw_edit.Stores.JobStore.{JobStore}
use nw_edit.Stores.ControlStore
use nw_edit.Stores.RunStore
use nw_edit.Stores.ControlStore.{ExecutionControl}
use nw_edit.JobService.{apply_event}
use nw_edit.Api.State.{App}
use nw_edit.Api.Execution.{
  reset_started, reset_run_control, after_event, notify, finish_run, summary_event, Action,
  control_applied, control_found, job_found, apply_control_action,
}

pub data JobsMove (before : JobStore) : JobStore → Type 0 where
  kept : JobsMove before before
  moved :
      (now job_id event_name : String) (job : JobRecord) (after : JobStore)
      → apply_event now before job_id event_name ≡ ok (job, after)
      → JobsMove before after

module _ (now job_id : String) where
  reset_started-JobsMove :
      (app : App) (r : Result (JobRecord × JobStore))
      → apply_event now app.jobs job_id "start" ≡ r
      → JobsMove app.jobs (reset_started job_id app r).1.jobs
  unfolding reset_started
  reset_started-JobsMove app (err e) h = kept
  reset_started-JobsMove app (ok (job, jobs)) h = moved now job_id "start" job jobs h

  pub reset_run_control-JobsMove :
      (app : App) → JobsMove app.jobs (reset_run_control now job_id app).1.jobs
  unfolding reset_run_control
  reset_run_control-JobsMove app =
      reset_started-JobsMove app (apply_event now app.jobs job_id "start") refl

  after_event-JobsMove :
      (summary : JobRunSummary) (app : App) (event_name : String)
      (r : Result (JobRecord × JobStore))
      → apply_event now app.jobs job_id event_name ≡ r
      → JobsMove app.jobs (after_event summary app r).1.jobs
  unfolding after_event
  after_event-JobsMove summary app event_name (ok (job, jobs)) h =
      moved now job_id event_name job jobs h
  after_event-JobsMove summary app event_name (err (value_error text)) h = kept
  after_event-JobsMove summary app event_name (err _) h = kept

  notify-JobsMove :
      (summary : JobRunSummary) (app : App) (event_name : Option String)
      → JobsMove app.jobs (notify now job_id summary app event_name).1.jobs
  unfolding notify
  notify-JobsMove summary app none = kept
  notify-JobsMove summary app (some event_name) =
      after_event-JobsMove summary app event_name (apply_event now app.jobs job_id event_name) refl

  pub finish_run-JobsMove :
      (summary : JobRunSummary) (app : App)
      → JobsMove app.jobs (finish_run now job_id summary app).1.jobs
  unfolding finish_run
  finish_run-JobsMove summary app =
      notify-JobsMove summary (record app { runs = RunStore.save app.runs summary })
        (summary_event summary.status)

  control_applied-JobsMove :
      (action : Action) (app : App) (r : Result (JobRecord × JobStore))
      → apply_event now app.jobs job_id action.event_name ≡ r
      → JobsMove app.jobs (control_applied now job_id action.status action.message app r).1.jobs
  unfolding control_applied
  control_applied-JobsMove action app (err e) h = kept
  control_applied-JobsMove action app (ok (job, jobs)) h =
      moved now job_id action.event_name job jobs h

  control_found-JobsMove :
      (action : Action) (app : App) (control : Option ExecutionControl)
      → JobsMove app.jobs (control_found now job_id action app control).1.jobs
  unfolding control_found
  control_found-JobsMove action app none = kept
  control_found-JobsMove action app (some control) =
      let controls = ControlStore.set_control app.controls job_id (action.mutate_control control) in
      control_applied-JobsMove action (record app { controls = controls })
        (apply_event now app.jobs job_id action.event_name) refl

  job_found-JobsMove :
      (action : Action) (app : App) (job : Option JobRecord)
      → JobsMove app.jobs (job_found now job_id action app job).1.jobs
  unfolding job_found
  job_found-JobsMove action app none = kept
  job_found-JobsMove action app (some job) =
      control_found-JobsMove action app (ControlStore.get app.controls job_id)

  pub apply_control_action-JobsMove :
      (action : Action) (app : App)
      → JobsMove app.jobs (apply_control_action now job_id action app).1.jobs
  unfolding apply_control_action
  apply_control_action-JobsMove action app =
      job_found-JobsMove action app (JobStore.get app.jobs job_id)
