-- ===== src/Engine/Results/LastEvent.antt =====
-- A run that returns has announced its end, once, as its last event.
use nw_edit.Prelude.{
  ℕ, ◌≡◌, refl, ◌≢◌, ◌⊎◌, inl, inr, true, some, none, List, [], ◌∷◌, ◌++◌, arith, All,
}
use nw_edit.Domain.Models.{
  JobStatus, completed, failed, cancelled, status_value, DeviceExecutionResult,
}
use nw_edit.Stores.EventStore.{ExecutionEvent}
use nw_edit.Engine.Env.{Setup, tick, emit, event_at, cancel_seen}
use nw_edit.Engine.Run.{Job, World, Run, Ending, finished, complete_as}
use nw_edit.Engine.Rounds.{conclude, final_status}
use nw_edit.Engine.RunJob.{status_of_canary, run_job}
use nw_edit.Engine.Steps.Loop.{Ended, concluded, cancelled_end, crashed, out_of_fuel}
use nw_edit.Engine.Silence.{IsSilent, moves-IsSilent, record_result-IsSilent}
use nw_edit.Engine.Course.{
  Course, refused, canary_raised, canary_failed, canary_alone, fanned_out, run_job-Course,
}

abbrev pub IsTerminal : JobStatus → Type 0
IsTerminal status = (status ≡ completed) ⊎ ((status ≡ failed) ⊎ (status ≡ cancelled))

module _ (setup : Setup) (world : World) (job : Job) where
  -- The last event announces the status of the summary, and none before it is a `job_complete`.
  pub record IsClosed (run : Run) : Type 0 where
    pub before : List ExecutionEvent
    pub last : ExecutionEvent
    pub split : run.main.events ≡ before ++ last ∷ []
    pub quiet : All (λ (e : ExecutionEvent). e.type ≢ "job_complete") before
    pub type : last.type ≡ "job_complete"
    pub job_id : last.job_id ≡ job.job_id
    pub status : last.status ≡ some (status_value run.summary.status)
    pub terminal : IsTerminal run.summary.status

  module _ (on : setup.publisher ≡ true) where
    complete_as-IsClosed :
        (status : JobStatus) (run : Run)
        → IsTerminal status
        → IsSilent run.main
        → IsClosed (complete_as setup world job status run).1
    unfolding complete_as
    complete_as-IsClosed status run t s = record {
      before = run.main.events;
      last =
          event_at world.main run.main "job_complete" job.job_id none (some (status_value status))
            none;
      split = unfold emit in rw (on, emit) refl;
      quiet = s;
      type = refl;
      job_id = refl;
      status = refl;
      terminal = t;
    }

    status_of_canary-IsTerminal :
        (result : DeviceExecutionResult) → IsTerminal (status_of_canary setup world job result)
    status_of_canary-IsTerminal result = ground arith

    Ended-IsClosed :
        {start : Run} {out : Ending × Run}
        → IsSilent start.main
        → Ended setup world job start out
        → out.0 ≡ finished
        → IsClosed out.1
    unfolding conclude
    Ended-IsClosed s (concluded {last = last} r p f e) h = rw e (
        complete_as-IsClosed
          (final_status setup world job (cancel_seen setup world.main last.main) last.summary)
          (record last { main = tick last.main }) (ground arith)
          (moves-IsSilent setup world job r s))
    Ended-IsClosed s (cancelled_end {last = last} r e) h =
        rw e (
          complete_as-IsClosed cancelled last (inr (inr refl)) (moves-IsSilent setup world job r s))
    Ended-IsClosed s (crashed error left flight told r e) h = cc (rw e at h)
    Ended-IsClosed s (out_of_fuel r e) h = cc (rw e at h)

    Course-IsClosed :
        {out : Ending × Run} → Course setup world job out → out.0 ≡ finished → IsClosed out.1
    Course-IsClosed (refused last status s none_started unrun quiet e) h =
        rw e (complete_as-IsClosed status last (ground arith) quiet)
    Course-IsClosed (canary_raised last error fresh told e) h = cc (rw e at h)
    Course-IsClosed (canary_failed last result fresh told bad e) h = rw e (
        complete_as-IsClosed _ _ (status_of_canary-IsTerminal result)
          (record_result-IsSilent setup world job job.canary result last fresh.silent))
    Course-IsClosed (canary_alone last result fresh told good alone e) h = rw e (
        complete_as-IsClosed completed _ (inl refl)
          (record_result-IsSilent setup world job job.canary result last fresh.silent))
    Course-IsClosed (fanned_out last result fresh told good ended) h =
        Ended-IsClosed (record_result-IsSilent setup world job job.canary result last fresh.silent)
          ended h

    -- With a publisher: a run that returns has published `job_complete` as the last event of the
    -- engine's own thread and at no time before, with the status of the summary that it returns,
    -- which is completed, failed or cancelled.
    pub returned_is_announced :
        (polls fuel : ℕ)
        → (run_job setup world job polls fuel).0 ≡ finished
        → IsClosed (run_job setup world job polls fuel).1
    returned_is_announced polls fuel = Course-IsClosed (run_job-Course setup world job polls fuel)
