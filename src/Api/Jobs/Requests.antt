-- ===== src/Api/Jobs/Requests.antt =====
-- The requests that change the stored jobs, and what holds of the jobs after any number of them.
use nw_edit.Prelude.{
  ◌≤◌, String, ◌≡◌, refl, true, Option, none, some, [], arith, Bool-cases, inl, inr, filter,
  is_empty, subst,
}
use nw_edit.Result.{Result, ok, err}
use nw_edit.Dict
use nw_edit.Dict.{Dict}
use nw_edit.Domain.Models.{
  JobRecord, JobStatus, JobEvent, start, is_active_job, is_active_job_status, JobRunSummary,
}
use nw_edit.Domain.StateMachine.{transitions}
use nw_edit.Stores.JobStore
use nw_edit.Stores.JobStore.{JobStore}
use nw_edit.JobService
use nw_edit.JobService.{moved_job}
use nw_edit.JobService.Invariant.{IsStored, create_job-IsStored, apply_event-IsStored}
use nw_edit.JobService.Effects.{Outcome, applied, apply_event-Outcome}
use nw_edit.Api.State.{App, new_app}
use nw_edit.Api.Execution.{reset_run_control, finish_run}
use nw_edit.Api.Execution.Moves.{
  JobsMove, kept, moved, reset_run_control-JobsMove, finish_run-JobsMove,
  apply_control_action-JobsMove,
}
use nw_edit.Api.Control.{pausing, resuming, cancelling, pause_job, resume_job, cancel_job}
use nw_edit.Api.Jobs.{
  newest_first, first_active, create_job, event_answer, apply_event, reset_app_state, clear_all,
  create_unless,
}
use nw_edit.Api.Jobs.OneActive.{
  active_count, active_count-put, active_count-newest_first, first_active-none,
}

-- One request, or the end of one run, in the application.
infix 40 ◌⟿◌ ◌⟿*◌
pub data ◌⟿◌ (app : App) : App → Type 0 where
  creates :
      (job_id now job_name creator : String) (global_vars : Dict String)
      → app ⟿ (create_job job_id now job_name creator global_vars app).1
  applies : (now job_id event_name : String) → app ⟿ (apply_event now job_id event_name app).1
  starts : (now job_id : String) → app ⟿ (reset_run_control now job_id app).1
  finishes :
      (now job_id : String) (summary : JobRunSummary) → app ⟿ (finish_run now job_id summary app).1
  pauses : (now job_id : String) → app ⟿ (pause_job now job_id app).1
  resumes : (now job_id : String) → app ⟿ (resume_job now job_id app).1
  cancels : (now job_id : String) → app ⟿ (cancel_job now job_id app).1
  resets : app ⟿ (reset_app_state app).1

pub data ◌⟿*◌ (app : App) : App → Type 0 where
  here : app ⟿* app
  onward : {middle after : App} → app ⟿* middle → middle ⟿ after → app ⟿* after

-- Every job is stored under its id with stamps that fit its status, and at most one is active.
pub record IsSingle (jobs : JobStore) : Type 0 where
  pub stored : IsStored jobs
  pub single : active_count (JobStore.list jobs) ≤ 1

event-active :
    (status next : JobStatus) (event : JobEvent)
    → transitions status event ≡ some next
    → is_active_job_status status ≡ true
event-active status next start t = ground arith
event-active status next _ t = ground arith

-- An event is accepted from an active job alone, so that it makes no further job active.
Outcome-active_count-le :
    (now job_id event_name : String) (jobs : JobStore) {r : Result (JobRecord × JobStore)}
    → Outcome now jobs job_id event_name r
    → IsStored jobs
    → (after : JobRecord × JobStore) → r ≡ ok after
    → active_count (JobStore.list after.1) ≤ active_count (JobStore.list jobs)
unfolding JobStore.save JobStore.get is_active_job moved_job
Outcome-active_count-le now job_id event_name jobs (applied event job next e j t) v after h =
    let job' = moved_job now event next job in
    let is_after : (job', JobStore.save jobs job') ≡ after = cc in
    let own : job.job_id ≡ job_id = (v.at job_id job j).0 in
    subst
      (λ (a : JobRecord × JobStore).
        active_count (JobStore.list a.1) ≤ active_count (JobStore.list jobs))
      is_after
      (ground (
        arith,
        active_count-put jobs job.job_id job',
        event-active job.status next event t,
        j,
        own,
      ))
Outcome-active_count-le now job_id event_name jobs _ v after h = cc

JobsMove-IsSingle :
    {before after : JobStore} → JobsMove before after → IsSingle before → IsSingle after
JobsMove-IsSingle kept v = v
JobsMove-IsSingle {before} (moved now job_id event_name job after h) v = record {
  stored = apply_event-IsStored now before job_id event_name (job, after) v.stored h;
  single = omega (
    arith,
    v.single,
    Outcome-active_count-le now job_id event_name before
        (apply_event-Outcome now before job_id event_name) v.stored (job, after) h,
  );
}

create_unless-IsSingle :
    (job_id now job_name creator : String) (global_vars : Dict String) (app : App)
    (active : Option JobRecord)
    → (active ≡ none → active_count (JobStore.list app.jobs) ≡ 0)
    → IsSingle app.jobs
    → IsSingle (create_unless job_id now job_name creator global_vars app active).1.jobs
unfolding create_unless JobService.create_job JobStore.save is_active_job
create_unless-IsSingle job_id now job_name creator global_vars app (some existing) free v = v
create_unless-IsSingle job_id now job_name creator global_vars app none free v = record {
  stored = create_job-IsStored now app.jobs job_id job_name creator global_vars v.stored;
  single = ground (
    arith,
    active_count-put app.jobs job_id (JobService.new_job job_id now job_name creator global_vars),
    free refl,
  );
}

create_job-IsSingle :
    (job_id now job_name creator : String) (global_vars : Dict String) (app : App)
    → IsSingle app.jobs
    → IsSingle (create_job job_id now job_name creator global_vars app).1.jobs
unfolding create_job
create_job-IsSingle job_id now job_name creator global_vars app v =
    let jobs = JobStore.list app.jobs in
    create_unless-IsSingle job_id now job_name creator global_vars app
      (first_active (newest_first jobs))
      (λ h. omega (arith, first_active-none (newest_first jobs) h, active_count-newest_first jobs))
      v

empty-IsSingle : IsSingle []
unfolding JobStore.list JobStore.get Dict.get
empty-IsSingle = record { stored = record { at = λ k job h. cc }; single = omega arith }

event_answer-JobsMove :
    (now job_id event_name : String) (app : App) (r : Result (JobRecord × JobStore))
    → JobService.apply_event now app.jobs job_id event_name ≡ r
    → JobsMove app.jobs (event_answer app r).1.jobs
unfolding event_answer
event_answer-JobsMove now job_id event_name app (err e) h = kept
event_answer-JobsMove now job_id event_name app (ok (job, jobs)) h =
    moved now job_id event_name job jobs h

apply_event-JobsMove :
    (now job_id event_name : String) (app : App)
    → JobsMove app.jobs (apply_event now job_id event_name app).1.jobs
unfolding apply_event
apply_event-JobsMove now job_id event_name app =
    event_answer-JobsMove now job_id event_name app
      (JobService.apply_event now app.jobs job_id event_name) refl

reset_app_state-IsSingle : (app : App) → IsSingle app.jobs → IsSingle (reset_app_state app).1.jobs
unfolding reset_app_state clear_all JobStore.clear
reset_app_state-IsSingle app v =
    elim (Bool-cases (is_empty (filter is_active_job (JobStore.list app.jobs)))) [
      | inl e ↦ rw e empty-IsSingle
      | inr e ↦ rw e v
    ]

⟿-IsSingle : {app after : App} → app ⟿ after → IsSingle app.jobs → IsSingle after.jobs
unfolding pause_job resume_job cancel_job
⟿-IsSingle {app} (creates job_id now job_name creator global_vars) v =
    create_job-IsSingle job_id now job_name creator global_vars app v
⟿-IsSingle {app} (applies now job_id event_name) v =
    JobsMove-IsSingle (apply_event-JobsMove now job_id event_name app) v
⟿-IsSingle {app} (starts now job_id) v =
    JobsMove-IsSingle (reset_run_control-JobsMove now job_id app) v
⟿-IsSingle {app} (finishes now job_id summary) v =
    JobsMove-IsSingle (finish_run-JobsMove now job_id summary app) v
⟿-IsSingle {app} (pauses now job_id) v =
    JobsMove-IsSingle (apply_control_action-JobsMove now job_id pausing app) v
⟿-IsSingle {app} (resumes now job_id) v =
    JobsMove-IsSingle (apply_control_action-JobsMove now job_id resuming app) v
⟿-IsSingle {app} (cancels now job_id) v =
    JobsMove-IsSingle (apply_control_action-JobsMove now job_id cancelling app) v
⟿-IsSingle {app} resets v = reset_app_state-IsSingle app v

-- Whatever requests have been served since the application started, one after the other, every job
-- is stored under its id with time stamps that fit its status, and at most one job is queued,
-- running or paused.
pub one_active : {app : App} → new_app ⟿* app → IsSingle app.jobs
one_active here = empty-IsSingle
one_active (onward reach request) = ⟿-IsSingle request (one_active reach)
