-- ===== src/Api/Execution/Finish.antt =====
-- What a run that is over does to its job, and what the start of a run does to the flags.
use nw_edit.Prelude.{
  String, ◌≡◌, refl, sym, Option, none, some, eq_iff, or_default, Option-cases, inl, inr,
}
use nw_edit.Result.{ok}
use nw_edit.Domain.Models.{
  JobRecord, JobStatus, queued, running, paused, completed, failed, cancelled, JobEvent, complete,
  fail, cancel, JobRunSummary,
}
use nw_edit.Domain.StateMachine.{transitions}
use nw_edit.Stores.JobStore
use nw_edit.Stores.RunStore
use nw_edit.Stores.Laws.{get-save}
use nw_edit.Dict.Laws.{get-put_self}
use nw_edit.JobService.{event_map, moved_job}
use nw_edit.JobService.Effects.{apply_event_of_next, apply_event_of_none}
use nw_edit.Api.State.{App}
use nw_edit.Api.Execution.{notify, finish_run, summary_event}

-- The second status, that of a job, when a run has ended with the first as its final status: a running job takes over the
-- summary's final status, a cancellation reaches every unfinished job, and any other job stays as
-- it is.
abbrev pub status_after : JobStatus → JobStatus → JobStatus
status_after completed running = completed
status_after failed running = failed
status_after cancelled running = cancelled
status_after cancelled queued = cancelled
status_after cancelled paused = cancelled
status_after _ status = status

-- The status of the stored job.
abbrev pub status_of : Option JobRecord → Option JobStatus
status_of none = none
status_of (some job) = some job.status

module _ (now job_id : String) (summary : JobRunSummary) (app : App) (job : JobRecord) where
  notify_lem :
      (event_name : String) (event : JobEvent)
      → event_map event_name ≡ some event
      → JobStore.get app.jobs job_id ≡ some job
      → job.job_id ≡ job_id
      → let (answer, after) = notify now job_id summary app (some event_name) in
        (answer ≡ ok summary)
        × (after.runs ≡ app.runs)
        × (status_of (JobStore.get after.jobs job_id)
            ≡ some (or_default (transitions job.status event) job.status))
  unfolding notify moved_job
  notify_lem event_name event e j own = elim (Option-cases (transitions job.status event)) [
    | inl t ↦
        rw (apply_event_of_none now app.jobs job_id event_name event job e j t)
          (refl, refl, rw (j, t) refl)
    | inr (next, t) ↦
        rw (apply_event_of_next now app.jobs job_id event_name event job next e j t)
          (refl, refl, rw (get-save, own, (eq_iff job_id job_id).1 refl, t) refl)
  ]

  -- The three events of a summary move a job as `status_after` says.
  moved_status :
      (own : JobStatus)
      → (or_default (transitions own complete) own ≡ status_after completed own)
        × (or_default (transitions own fail) own ≡ status_after failed own)
        × (or_default (transitions own cancel) own ≡ status_after cancelled own)
  moved_status queued = (refl, refl, refl)
  moved_status _ = (refl, refl, refl)

  notify-status :
      (ended : JobStatus)
      → JobStore.get app.jobs job_id ≡ some job
      → job.job_id ≡ job_id
      → let (answer, after) = notify now job_id summary app (summary_event ended) in
        (answer ≡ ok summary)
        × (after.runs ≡ app.runs)
        × (status_of (JobStore.get after.jobs job_id) ≡ some (status_after ended job.status))
  unfolding notify event_map
  notify-status completed j own =
      rw (sym (moved_status job.status).0) (notify_lem "complete" complete refl j own)
  notify-status failed j own =
      rw (sym (moved_status job.status).1) (notify_lem "fail" fail refl j own)
  notify-status cancelled j own =
      rw (sym (moved_status job.status).2) (notify_lem "cancel" cancel refl j own)
  notify-status _ j own = (refl, refl, rw j refl)

module _ (now job_id : String) (summary : JobRunSummary) (app : App) (job : JobRecord) where
  -- At the end of a run whose job is stored, the answer is the run's summary and the summary is
  -- stored under its job. A running job has then taken over that final status, a
  -- cancelled run has cancelled any unfinished job, and the status is otherwise unchanged: a job
  -- that was paused during the last calls of a run stays paused although the run is over.
  pub finish_run-status :
      JobStore.get app.jobs job_id ≡ some job
      → job.job_id ≡ job_id
      → let (answer, after) = finish_run now job_id summary app in
        (answer ≡ ok summary)
        × (RunStore.get after.runs summary.job_id ≡ some summary)
        × (status_of (JobStore.get after.jobs job_id)
            ≡ some (status_after summary.status job.status))
  unfolding finish_run RunStore.get RunStore.save
  finish_run-status j own =
      let saved = record app { runs = RunStore.save app.runs summary } in
      let (answer, kept, moved) = notify-status now job_id summary saved job summary.status j own in
      (answer, rw kept (get-put_self app.runs summary.job_id summary), moved)
