-- ===== src/Api/Runs/Answer.antt =====
-- A request that is answered with a summary: what was prepared, and the run that returned it.
use nw_edit.Prelude.{ℕ, String, ◌≡◌, refl, ap, some, List}
use nw_edit.Result.{Result, ok, err}
use nw_edit.Domain.Models.{JobRunSummary}
use nw_edit.Stores.EventStore.{ExecutionEvent}
use nw_edit.Stores.ControlStore.{ExecutionControl}
use nw_edit.Engine.Env.{Setup}
use nw_edit.Engine.Run.{Job, World}
use nw_edit.Api.State.{App}
use nw_edit.Api.Execution.{reset_run_control}
use nw_edit.Api.Execution.Answer.{same_outcome, IsReturned, execute_prepared_run-IsReturned}
use nw_edit.Api.Preparation.{RunJobRequest, PreparedRun, prepare_run}
use nw_edit.Api.Runs.{engine_job, after_reset, after_preparation, run_job}

module _ (setup : Setup) (world : World) (polls fuel : ℕ) (started now : String)
    (meanwhile : App → App) (published : List ExecutionEvent) where
  after_reset-IsReturned :
      (job : Job) (reset : Result ExecutionControl × App) (after : App) (answer : JobRunSummary)
      → after_reset setup world polls fuel now meanwhile published job reset
        ≡ some (ok answer, after)
      → IsReturned setup world job polls fuel answer
  unfolding after_reset
  after_reset-IsReturned job (err e, app) after answer h =
      let refused = ap (λ out. out.0) (same_outcome h) in cc
  after_reset-IsReturned job (ok control, app) after answer h =
      execute_prepared_run-IsReturned setup world polls fuel now meanwhile published job app after
        answer h

  -- The run that a request is answered with.
  pub record IsAnswered (job_id : String) (payload : RunJobRequest) (app : App)
      (answer : JobRunSummary) : Type 0 where
    pub prepared : PreparedRun
    pub is_prepared : prepare_run job_id payload app.jobs app.devices ≡ ok prepared
    pub returned : IsReturned setup world (engine_job job_id payload prepared) polls fuel answer

  after_preparation-IsAnswered :
      (job_id : String) (payload : RunJobRequest) (app after : App) (answer : JobRunSummary)
      (made : Result PreparedRun)
      → prepare_run job_id payload app.jobs app.devices ≡ made
      → after_preparation setup world polls fuel started now meanwhile published job_id payload app
          made
        ≡ some (ok answer, after)
      → IsAnswered job_id payload app answer
  unfolding after_preparation
  after_preparation-IsAnswered job_id payload app after answer (err e) p h =
      let refused = ap (λ out. out.0) (same_outcome h) in cc
  after_preparation-IsAnswered job_id payload app after answer (ok prepared) p h = record {
    prepared = prepared;
    is_prepared = p;
    returned =
        after_reset-IsReturned (engine_job job_id payload prepared)
          (reset_run_control started job_id app) after answer h;
  }

  pub run_job-IsAnswered :
      (job_id : String) (payload : RunJobRequest) (app after : App) (answer : JobRunSummary)
      → run_job setup world polls fuel started now meanwhile published job_id payload app
        ≡ some (ok answer, after)
      → IsAnswered job_id payload app answer
  unfolding run_job
  run_job-IsAnswered job_id payload app after answer h =
      after_preparation-IsAnswered job_id payload app after answer
        (prepare_run job_id payload app.jobs app.devices) refl h
