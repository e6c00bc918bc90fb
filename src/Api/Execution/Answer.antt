-- ===== src/Api/Execution/Answer.antt =====
-- A run that is answered with a summary has returned it.
use nw_edit.Prelude.{ℕ, String, ◌≡◌, refl, ap, Option, none, some, List}
use nw_edit.Result.{
  value_error, lookup_error, netmiko_error, runtime_error, http_error, Result, ok, err,
}
use nw_edit.Domain.Models.{JobRecord, JobRunSummary}
use nw_edit.Stores.ControlStore
use nw_edit.Stores.JobStore.{JobStore}
use nw_edit.Stores.RunStore
use nw_edit.Stores.EventStore.{ExecutionEvent}
use nw_edit.JobService.{apply_event}
use nw_edit.Engine.Env.{Setup}
use nw_edit.Engine.Run.{Job, World, Run, Ending, finished, failure, exhausted}
use nw_edit.Engine.RunJob.{run_job}
use nw_edit.Api.State.{App}
use nw_edit.Api.Execution.{
  after_event, notify, finish_run, summary_event, publish_all, run_outcome, execute_prepared_run,
}

same_answer : {a b : JobRunSummary} → ok a ≡ ok b → b ≡ a
same_answer e = cc

after_event-answer :
    (summary answer : JobRunSummary) (app : App) (moved : Result (JobRecord × JobStore))
    → (after_event summary app moved).0 ≡ ok answer
    → answer ≡ summary
unfolding after_event
after_event-answer summary answer app (ok (job, jobs)) h = same_answer h
after_event-answer summary answer app (err (value_error text)) h = same_answer h
after_event-answer summary answer app (err (lookup_error text)) h = cc
after_event-answer summary answer app (err (netmiko_error text)) h = cc
after_event-answer summary answer app (err (runtime_error text)) h = cc
after_event-answer summary answer app (err (http_error code text)) h = cc

notify-answer :
    (now job_id : String) (summary answer : JobRunSummary) (app : App) (event_name : Option String)
    → (notify now job_id summary app event_name).0 ≡ ok answer
    → answer ≡ summary
unfolding notify
notify-answer now job_id summary answer app none h = same_answer h
notify-answer now job_id summary answer app (some event_name) h =
    after_event-answer summary answer app (apply_event now app.jobs job_id event_name) h

-- What an answered run was in the engine.
pub record IsReturned (setup : Setup) (world : World) (job : Job) (polls fuel : ℕ)
    (answer : JobRunSummary) : Type 0 where
  pub ended : (run_job setup world job polls fuel).0 ≡ finished
  pub summary : answer ≡ (run_job setup world job polls fuel).1.summary

pub same_outcome {ℓ} : {A : Type ℓ} {a b : A} → some a ≡ some b → a ≡ b
same_outcome e = cc

run_outcome-answer :
    (now job_id : String) (out : Ending × Run) (answer : JobRunSummary) (app after : App)
    → run_outcome now job_id out app ≡ some (ok answer, after)
    → (out.0 ≡ finished) × (answer ≡ out.1.summary)
unfolding run_outcome finish_run
run_outcome-answer now job_id (finished, run) answer app after h = (
  refl,
  notify-answer now job_id run.summary answer
      (record app { runs = RunStore.save app.runs run.summary }) (summary_event run.summary.status)
      (ap (λ out. out.0) (same_outcome h)),
)
run_outcome-answer now job_id (failure e, run) answer app after h =
    let refused = ap (λ out. out.0) (same_outcome h) in cc
run_outcome-answer now job_id (exhausted, run) answer app after h = cc

pub execute_prepared_run-IsReturned :
    (setup : Setup) (world : World) (polls fuel : ℕ) (now : String) (meanwhile : App → App)
    (published : List ExecutionEvent) (job : Job) (app after : App) (answer : JobRunSummary)
    → execute_prepared_run setup world polls fuel now meanwhile published job app
      ≡ some (ok answer, after)
    → IsReturned setup world job polls fuel answer
unfolding execute_prepared_run
execute_prepared_run-IsReturned setup world polls fuel now meanwhile published job app after answer
      h =
    let (control, controls) = ControlStore.get_or_create app.controls job.job_id in
    let during = meanwhile (record app { controls = controls }) in
    let over : App = record during { events = publish_all published during.events } in
    let (ended, summary) =
      run_outcome-answer now job.job_id (run_job setup world job polls fuel) answer over after h in
    record { ended = ended; summary = summary }
