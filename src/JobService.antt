-- ===== src/JobService.antt =====
-- backend_v2/app/application/job_service.py. The fresh id of `uuid4` and the time of `utc_now` are
-- arguments. The source changes the stored job in place and then saves it; nothing can fail between
-- the first change and the save, so that the new job is written at once.
pub mod Effects
pub mod Moved
pub mod Invariant
mod Examples
use nw_edit.Prelude.{String, Option, none, some, [], ◌∷◌, ◌==◌, if◌then◌else◌, join}
use nw_edit.Result.{Error, Result, ok, err, value_error, lookup_error, ◌>>=◌}
use nw_edit.Dict.{Dict}
use nw_edit.Domain.Models.{
  JobRecord, JobStatus, queued, completed, failed, cancelled, JobEvent, start, pause, resume,
  complete, fail, cancel,
}
use nw_edit.Domain.StateMachine.{transition}
use nw_edit.Stores.JobStore
use nw_edit.Stores.JobStore.{JobStore}

-- `_event_map.get(event_name)`.
unfoldable pub event_map : String → Option JobEvent
event_map name =
    if name == "start"
    then some start
    else if name == "pause"
    then some pause
    else if name == "resume"
    then some resume
    else if name == "complete"
    then some complete
    else if name == "fail"
    then some fail
    else if name == "cancel"
    then some cancel
    else none

abbrev pub new_job : String → String → String → String → Dict String → JobRecord
new_job job_id now job_name creator global_vars = record {
  job_id = job_id;
  job_name = job_name;
  creator = creator;
  status = queued;
  created_at = now;
  global_vars = global_vars;
  started_at = none;
  completed_at = none;
}

unfoldable pub create_job :
    String → String → JobStore → String → String → Dict String → JobRecord × JobStore
create_job job_id now jobs job_name creator global_vars =
    let job = new_job job_id now job_name creator global_vars in (job, JobStore.save jobs job)

or_raise {ℓ} : {A : Type ℓ} → Option A → Error → Result A
or_raise none e = err e
or_raise (some a) e = ok a

-- `if event == START and job.started_at is None: job.started_at = now`.
stamp_start : String → JobEvent → Option String → Option String
stamp_start now start none = some now
stamp_start now _ started_at = started_at

-- `if job.status in {COMPLETED, FAILED, CANCELLED}: job.completed_at = now`.
stamp_end : String → JobStatus → Option String → Option String
stamp_end now completed completed_at = some now
stamp_end now failed completed_at = some now
stamp_end now cancelled completed_at = some now
stamp_end now _ completed_at = completed_at

-- The job after the transition to `next` by `event`.
unfoldable pub moved_job : String → JobEvent → JobStatus → JobRecord → JobRecord
unfolding stamp_start stamp_end
moved_job now event next job = record job {
  status = next;
  started_at = stamp_start now event job.started_at;
  completed_at = stamp_end now next job.completed_at;
}

abbrev pub unknown_event : String → Error
unknown_event event_name = value_error (join "" ("Unknown event: " ∷ event_name ∷ []))

abbrev pub job_not_found : String → Error
job_not_found job_id = lookup_error (join "" ("Job not found: " ∷ job_id ∷ []))

unfoldable pub apply_event : String → JobStore → String → String → Result (JobRecord × JobStore)
unfolding or_raise
apply_event now jobs job_id event_name = do
  event ← or_raise (event_map event_name) (unknown_event event_name)
  job ← or_raise (JobStore.get jobs job_id) (job_not_found job_id)
  moved ← transition job.status event
  let job' = moved_job now event moved.next_status job
  ok (job', JobStore.save jobs job')
