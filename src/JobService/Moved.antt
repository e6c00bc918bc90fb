-- ===== src/JobService/Moved.antt =====
-- What `apply_event` of job_service.py does to a job and to the jobs that are stored.
use nw_edit.Prelude.{
  String, ◌==◌, ◌≡◌, refl, none, some, if◌then◌else◌, or_default, Option-cases, inl, inr,
}
use nw_edit.Result.{Result, ok, err, value_error}
use nw_edit.Dict.Laws.{get-put}
use nw_edit.Domain.Models.{
  JobRecord, JobStatus, queued, running, paused, completed, failed, cancelled, is_active_job_status,
  JobEvent, start, event_value,
}
use nw_edit.Domain.StateMachine.{transitions, invalid_text}
use nw_edit.Stores.JobStore
use nw_edit.Stores.JobStore.{JobStore}
use nw_edit.JobService.{event_map, moved_job, unknown_event, job_not_found, apply_event}
use nw_edit.JobService.Effects.{Outcome, unknown, missing, invalid, applied, apply_event-Outcome}

-- A job before and after an event: the table's next status, the stamps of the start and of the end,
-- and all else kept; and the store, in which nothing but this job has changed.
pub record IsMoved (now : String) (event : JobEvent) (job job' : JobRecord) (jobs jobs' : JobStore)
    : Type 0 where
  pub status : transitions job.status event ≡ some job'.status
  pub started : job'.started_at ≡ (
      if event_value event == "start" then some (or_default job.started_at now) else job.started_at)
  pub completed :
      job'.completed_at ≡ (if is_active_job_status job'.status then job.completed_at else some now)
  pub job_id : job'.job_id ≡ job.job_id
  pub names : (job'.job_name ≡ job.job_name) × (job'.creator ≡ job.creator)
  pub created : job'.created_at ≡ job.created_at
  pub vars : job'.global_vars ≡ job.global_vars
  pub saved :
      (k : String)
      → JobStore.get jobs' k ≡ (if job.job_id == k then some job' else JobStore.get jobs k)

module _ (now : String) (jobs : JobStore) (job_id event_name : String) where
  -- The refusals, in the order of the checks, and the move.
  pub data Effect : Result (JobRecord × JobStore) → Type 0 where
    unknown_name : event_map event_name ≡ none → Effect (err (unknown_event event_name))
    no_job :
        (event : JobEvent)
        → event_map event_name ≡ some event
        → JobStore.get jobs job_id ≡ none
        → Effect (err (job_not_found job_id))
    not_accepted :
        (event : JobEvent) (job : JobRecord)
        → event_map event_name ≡ some event
        → JobStore.get jobs job_id ≡ some job
        → transitions job.status event ≡ none
        → Effect (err (value_error (invalid_text job.status event)))
    moved :
        (event : JobEvent) (job job' : JobRecord) (jobs' : JobStore)
        → event_map event_name ≡ some event
        → JobStore.get jobs job_id ≡ some job
        → IsMoved now event job job' jobs jobs'
        → Effect (ok (job', jobs'))

  started-moved_job :
      (event : JobEvent) (next : JobStatus) (job : JobRecord)
      → (moved_job now event next job).started_at ≡ (
          if event_value event == "start"
          then some (or_default job.started_at now)
          else job.started_at)
  unfolding moved_job
  started-moved_job start next job = elim (Option-cases job.started_at) [
    | inl e ↦ rw e refl
    | inr (time, e) ↦ rw e refl
  ]
  started-moved_job _ next job = refl

  completed-moved_job :
      (event : JobEvent) (next : JobStatus) (job : JobRecord)
      → (moved_job now event next job).completed_at
        ≡ (if is_active_job_status next then job.completed_at else some now)
  unfolding moved_job
  completed-moved_job event queued job = refl
  completed-moved_job event running job = refl
  completed-moved_job event paused job = refl
  completed-moved_job event completed job = refl
  completed-moved_job event failed job = refl
  completed-moved_job event cancelled job = refl

  moved_job-IsMoved :
      (event : JobEvent) (next : JobStatus) (job : JobRecord)
      → transitions job.status event ≡ some next
      → IsMoved now event job
          (moved_job now event next job)
          jobs
          (JobStore.save jobs (moved_job now event next job))
  unfolding moved_job JobStore.get JobStore.save
  moved_job-IsMoved event next job t = record {
    status = t;
    started = started-moved_job event next job;
    completed = completed-moved_job event next job;
    job_id = refl;
    names = (refl, refl);
    created = refl;
    vars = refl;
    saved = λ k. get-put jobs job.job_id (moved_job now event next job) k;
  }

  Outcome-Effect :
      {r : Result (JobRecord × JobStore)} → Outcome now jobs job_id event_name r → Effect r
  Outcome-Effect (unknown e) = unknown_name e
  Outcome-Effect (missing event e j) = no_job event e j
  Outcome-Effect (invalid event job e j t) = not_accepted event job e j t
  Outcome-Effect (applied event job next e j t) =
      moved event job _ _ e j (moved_job-IsMoved event next job t)

  -- Every call of `apply_event` has one of four outcomes: an unknown event name is refused first,
  -- then a job that is not stored, then an event that the table has no entry for; otherwise the job
  -- gets the table's next status, `start` stamps a start that it has not got, a status that is not
  -- active stamps the end, and no other field and no other job changes.
  pub apply_event-Effect : Effect (apply_event now jobs job_id event_name)
  apply_event-Effect = Outcome-Effect (apply_event-Outcome now jobs job_id event_name)
