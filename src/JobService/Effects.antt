-- ===== src/JobService/Effects.antt =====
-- What the two use-cases do to the stored jobs.
use nw_edit.Prelude.{String, ◌≡◌, refl, inl, inr, none, some, Option-cases}
use nw_edit.Result.{Result, ok, err, value_error}
use nw_edit.Domain.Models.{JobRecord, JobStatus, JobEvent}
use nw_edit.Domain.StateMachine.{transitions, invalid_text}
use nw_edit.Domain.StateMachine.Lifecycle.{transition_of_entry, transition_of_none}
use nw_edit.Stores.JobStore
use nw_edit.Stores.JobStore.{JobStore}
use nw_edit.JobService.{event_map, moved_job, unknown_event, job_not_found, apply_event}

module _ (now : String) (jobs : JobStore) (job_id event_name : String) where
  -- The outcomes of `apply_event`, in the order of its checks.
  pub data Outcome : Result (JobRecord × JobStore) → Type 0 where
    unknown : event_map event_name ≡ none → Outcome (err (unknown_event event_name))
    missing :
        (event : JobEvent)
        → event_map event_name ≡ some event
        → JobStore.get jobs job_id ≡ none
        → Outcome (err (job_not_found job_id))
    invalid :
        (event : JobEvent) (job : JobRecord)
        → event_map event_name ≡ some event
        → JobStore.get jobs job_id ≡ some job
        → transitions job.status event ≡ none
        → Outcome (err (value_error (invalid_text job.status event)))
    applied :
        (event : JobEvent) (job : JobRecord) (next : JobStatus)
        → event_map event_name ≡ some event
        → JobStore.get jobs job_id ≡ some job
        → transitions job.status event ≡ some next
        → Outcome
            (ok (moved_job now event next job, JobStore.save jobs (moved_job now event next job)))

  -- Every call of `apply_event` has one of the four outcomes: an unknown event name is refused
  -- first, then a job that is not stored, then an event that the job's status does not accept;
  -- otherwise the job is moved along the table and saved.
  pub apply_event-Outcome : Outcome (apply_event now jobs job_id event_name)
  unfolding apply_event
  apply_event-Outcome = elim (Option-cases (event_map event_name)) [
    | inl e ↦ rw e (unknown e)
    | inr (event, e) ↦ rw e (elim (Option-cases (JobStore.get jobs job_id)) [
      | inl j ↦ rw j (missing event e j)
      | inr (job, j) ↦ rw j (elim (Option-cases (transitions job.status event)) [
        | inl t ↦ rw (transition_of_none job.status event t) (invalid event job e j t)
        | inr (next, t) ↦ rw (transition_of_entry job.status event t) (applied event job next e j t)
      ])
    ])
  ]

  -- The answer where every check passes, and where the table has no entry.
  pub apply_event_of_next :
      (event : JobEvent) (job : JobRecord) (next : JobStatus)
      → event_map event_name ≡ some event
      → JobStore.get jobs job_id ≡ some job
      → transitions job.status event ≡ some next
      → apply_event now jobs job_id event_name
        ≡ ok (moved_job now event next job, JobStore.save jobs (moved_job now event next job))
  unfolding apply_event
  apply_event_of_next event job next e j t =
      rw e (rw j (rw (transition_of_entry job.status event t) refl))

  pub apply_event_of_none :
      (event : JobEvent) (job : JobRecord)
      → event_map event_name ≡ some event
      → JobStore.get jobs job_id ≡ some job
      → transitions job.status event ≡ none
      → apply_event now jobs job_id event_name ≡ err (value_error (invalid_text job.status event))
  unfolding apply_event
  apply_event_of_none event job e j t =
      rw e (rw j (rw (transition_of_none job.status event t) refl))
