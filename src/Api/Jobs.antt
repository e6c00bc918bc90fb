-- ===== src/Api/Jobs.antt =====
-- The job endpoints of backend_v2/app/api/main.py. An endpoint that answers with a job answers with
-- the record itself; the fresh id and the time are arguments.
pub mod OneActive
pub mod Requests
use Prim.Native.Nat.{Ordering}
use Prim.Native.String.{compare}
use nw_edit.Prelude.{
  ℕ, String, Bool, true, false, Option, none, some, List, [], ◌∷◌, ◌==◌, if◌then◌else◌, join,
  filter, is_empty,
}
use nw_edit.Result.{Error, value_error, lookup_error, http_error, Result, ok, err}
use nw_edit.Dict.{Dict}
use nw_edit.Domain.Models.{JobRecord, status_value, is_active_job, JobRunSummary}
use nw_edit.Stores.JobStore
use nw_edit.Stores.DeviceStore
use nw_edit.Stores.EventStore
use nw_edit.Stores.EventStore.{ExecutionEvent}
use nw_edit.Stores.RunStore
use nw_edit.Stores.ControlStore
use nw_edit.JobService
use nw_edit.Api.State.{App, Handler}

-- `a > b` on texts.
later : String → String → Bool
later a b = elim (compare a b) [ Ordering.gt ↦ true | _ ↦ false ]

insert_newest : JobRecord → List JobRecord → List JobRecord
unfolding later
insert_newest job [] = job ∷ []
insert_newest job (other ∷ jobs) =
    let rest = insert_newest job jobs in
    if later other.created_at job.created_at then other ∷ rest else job ∷ other ∷ jobs

-- `jobs.sort(key=lambda item: item.created_at, reverse=True)`: jobs of one time keep their order.
unfoldable pub newest_first : List JobRecord → List JobRecord
unfolding insert_newest
newest_first [] = []
newest_first (job ∷ jobs) = insert_newest job (newest_first jobs)

-- The first active job of a list, where the loops over `is_active_job` stop.
unfoldable pub first_active : List JobRecord → Option JobRecord
first_active [] = none
first_active (job ∷ jobs) = if is_active_job job then some job else first_active jobs

-- `existing.job_name or existing.job_id`.
label : JobRecord → String
label job = if job.job_name == "" then job.job_id else job.job_name

abbrev pub already_text : JobRecord → String
unfolding label
already_text job = join "" (
    "Job '"
    ∷ label job
    ∷ "' is already "
    ∷ status_value job.status
    ∷ ". "
    ∷ "Wait for it to finish or cancel it before starting another job."
    ∷ [])

create_unless :
    String
    → String
    → String
    → String
    → Dict String
    → App
    → Option JobRecord
    → Result JobRecord × App
create_unless job_id now job_name creator global_vars app (some existing) =
    (err (http_error 409 (already_text existing)), app)
create_unless job_id now job_name creator global_vars app none =
    let (job, jobs) = JobService.create_job job_id now app.jobs job_name creator global_vars in
    (ok job, record app { jobs = jobs })

unfoldable pub create_job : String → String → String → String → Dict String → Handler JobRecord
unfolding create_unless
create_job job_id now job_name creator global_vars app =
    create_unless job_id now job_name creator global_vars app
      (first_active (newest_first (JobStore.list app.jobs)))

unfoldable pub list_jobs : App → List JobRecord
list_jobs app = newest_first (JobStore.list app.jobs)

-- `none`: the answer says that no job is active.
unfoldable pub active_job : App → Option JobRecord
active_job app = first_active (newest_first (JobStore.list app.jobs))

or_404 {ℓ} : {A : Type ℓ} → Option A → String → Result A
or_404 none text = err (http_error 404 text)
or_404 (some a) text = ok a

unfoldable pub get_job : String → App → Result JobRecord
unfolding or_404
get_job job_id app = or_404 (JobStore.get app.jobs job_id) "Job not found"

events_after : List ExecutionEvent → Option JobRecord → Result (List ExecutionEvent)
events_after events none = err (http_error 404 "Job not found")
events_after events (some job) = ok events

unfoldable pub list_job_events : String → App → Result (List ExecutionEvent)
unfolding events_after
list_job_events job_id app =
    events_after (EventStore.list_events app.events job_id 0) (JobStore.get app.jobs job_id)

unfoldable pub get_job_result : String → App → Result JobRunSummary
unfolding or_404
get_job_result job_id app = or_404 (RunStore.get app.runs job_id) "Run result not found"

-- `except LookupError`: 404, `except ValueError`: 400.
unfoldable pub event_error : Error → Error
event_error (lookup_error text) = http_error 404 text
event_error (value_error text) = http_error 400 text
event_error other = other

unfoldable pub event_answer : App → Result (JobRecord × JobStore.JobStore) → Result JobRecord × App
event_answer app (err e) = (err (event_error e), app)
event_answer app (ok (job, jobs)) = (ok job, record app { jobs = jobs })

unfoldable pub apply_event : String → String → String → Handler JobRecord
apply_event now job_id event_name app =
    event_answer app (JobService.apply_event now app.jobs job_id event_name)

-- The counts of the answer, in the order in which the stores are cleared.
pub record AppResetCounts : Type 0 where
  pub devices : ℕ
  pub jobs : ℕ
  pub events : ℕ
  pub run_results : ℕ
  pub controls : ℕ

unfoldable pub clear_all : App → AppResetCounts × App
clear_all app =
    let (devices, no_devices) = DeviceStore.clear app.devices in
    let (jobs, no_jobs) = JobStore.clear app.jobs in
    let (events, no_events) = EventStore.clear app.events in
    let (runs, no_runs) = RunStore.clear app.runs in
    let (controls, no_controls) = ControlStore.clear app.controls in
    (
      record {
        devices = devices;
        jobs = jobs;
        events = events;
        run_results = runs;
        controls = controls;
      },
      record {
        jobs = no_jobs;
        devices = no_devices;
        events = no_events;
        runs = no_runs;
        controls = no_controls;
      },
    )

abbrev pub reset_refused : Error
reset_refused = http_error 409 "Cannot reset app state while a job is queued, running, or paused"

unfoldable pub reset_app_state : Handler AppResetCounts
reset_app_state app =
    let (counts, cleared) = clear_all app in
    if is_empty (filter is_active_job (JobStore.list app.jobs))
    then (ok counts, cleared)
    else (err reset_refused, app)
