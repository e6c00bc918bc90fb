-- ===== src/Api/Control/Endpoints.antt =====
-- The control endpoints and the start of a run keep the flags in step with the jobs.
use nw_edit.Prelude.{
  String, ◌≡◌, refl, sym, ap, true, false, some, arith, ◌==◌, eq_iff, if◌then◌else◌, Option-cases,
  inl, inr,
}
use nw_edit.Result.{Result, ok}
use nw_edit.Domain.Models.{JobRecord, JobStatus, running, JobEvent, start, pause, resume, cancel}
use nw_edit.Domain.StateMachine.{transitions}
use nw_edit.Stores.JobStore
use nw_edit.Stores.JobStore.{JobStore}
use nw_edit.Stores.ControlStore
use nw_edit.Stores.ControlStore.{ControlStore, ExecutionControl}
use nw_edit.Stores.Laws.{get-set_control, get-get_or_create}
use nw_edit.JobService.{event_map, moved_job}
use nw_edit.JobService.Invariant.{IsStored, apply_event-IsStored}
use nw_edit.JobService.Effects.{
  Outcome, applied, apply_event-Outcome, apply_event_of_next, apply_event_of_none,
}
use nw_edit.Api.State.{App}
use nw_edit.Api.Execution.{
  Action, apply_control_action, reset_run_control, reset_started, clear_flags,
}
use nw_edit.Api.Control.{pausing, resuming, cancelling, pause_job, resume_job, cancel_job}
use nw_edit.Api.Control.InStep.{
  flags_fit, IsInStep, set_control-IsInStep, save-IsInStep, IsFitting, pausing-IsFitting,
  resuming-IsFitting, cancelling-IsFitting,
}

-- The part of the application that the invariant is about.
abbrev pub IsSound : App → Type 0
IsSound app = IsStored app.jobs × IsInStep app.jobs app.controls

module _ (now job_id : String) (app : App) (v : IsSound app) where
  moved-IsSound :
      (event_name : String) (event : JobEvent) (job : JobRecord) (next : JobStatus)
      (control : ExecutionControl) (after : ControlStore)
      → event_map event_name ≡ some event
      → JobStore.get app.jobs job_id ≡ some job
      → transitions job.status event ≡ some next
      → flags_fit next control ≡ true
      → ((k : String)
          → ControlStore.get after k
            ≡ (if job_id == k then some control else ControlStore.get app.controls k))
      → IsSound (record app {
        jobs = JobStore.save app.jobs (moved_job now event next job);
        controls = after;
      })
  unfolding moved_job
  moved-IsSound event_name event job next control after e j t fit written =
      let job' = moved_job now event next job in
      (
        apply_event-IsStored now app.jobs job_id event_name (job', JobStore.save app.jobs job') v.0
            (apply_event_of_next now app.jobs job_id event_name event job next e j t),
        save-IsInStep v.1 job_id job' control after (v.0.at job_id job j).0 fit written,
      )

  apply_control_action-IsSound :
      (event : JobEvent) (action : Action)
      → IsFitting event action
      → IsSound (apply_control_action now job_id action app).1
  unfolding apply_control_action
  apply_control_action-IsSound event action fits =
      elim (Option-cases (JobStore.get app.jobs job_id)) [
        | inl j ↦ rw j v
        | inr (job, j) ↦ rw j (elim (Option-cases (ControlStore.get app.controls job_id)) [
          | inl c ↦ rw c v
          | inr (control, c) ↦
              let fit = v.1.at job_id job control j c in
              let control' = action.mutate_control control in
              rw c (elim (Option-cases (transitions job.status event)) [
                | inl t ↦
                    rw
                      (apply_event_of_none now app.jobs job_id action.event_name event job
                        fits.known j t)
                      (
                        v.0,
                        set_control-IsInStep v.1 job_id job control' j
                            (fits.refused job.status control t fit),
                      )
                | inr (next, t) ↦
                    rw
                      (apply_event_of_next now app.jobs job_id action.event_name event job next
                        fits.known j t)
                      (moved-IsSound action.event_name event job next control'
                        (ControlStore.set_control app.controls job_id control') fits.known j t
                        (fits.moves job.status next control t fit)
                        (get-set_control app.controls job_id control'))
              ])
        ])
      ]

  -- Each control endpoint, whether it succeeds or is refused, keeps the jobs well stored and the
  -- flags in step with their status: a running job has both flags clear, a paused one the pause
  -- flag alone set.
  pub control-IsSound :
      IsSound (pause_job now job_id app).1
      × IsSound (resume_job now job_id app).1
      × IsSound (cancel_job now job_id app).1
  unfolding pause_job resume_job cancel_job
  control-IsSound = (
    apply_control_action-IsSound pause pausing pausing-IsFitting,
    apply_control_action-IsSound resume resuming resuming-IsFitting,
    apply_control_action-IsSound cancel cancelling cancelling-IsFitting,
  )

  -- What the start of a run promises.
  abbrev pub IsStart : Result ExecutionControl × App → Type 0
  IsStart out =
      IsSound out.1
      × ((control : ExecutionControl)
          → out.0 ≡ ok control
          → (control ≡ record { pause_event = false; cancel_event = false })
            × (ControlStore.get out.1.controls job_id ≡ some control))

  cleared_lem :
      let (control, controls) = ControlStore.get_or_create app.controls job_id in
      (k : String)
      → ControlStore.get (ControlStore.set_control controls job_id (clear_flags control)) k
        ≡ (if job_id == k then some (clear_flags control) else ControlStore.get app.controls k)
  cleared_lem k =
      let (control, controls) = ControlStore.get_or_create app.controls job_id in
      ground (
        arith,
        get-set_control controls job_id (clear_flags control) k,
        get-get_or_create app.controls job_id k,
        eq_iff job_id k,
      )

  -- `start` leads to `running` alone.
  started_running :
      (status next : JobStatus) (event : JobEvent)
      → event_map "start" ≡ some event
      → transitions status event ≡ some next
      → next ≡ running
  unfolding event_map
  started_running status next event e t = let is_start : start ≡ event = cc in ground arith

  Outcome-IsStart :
      {r : Result (JobRecord × JobStore)}
      → Outcome now app.jobs job_id "start" r
      → IsStart (reset_started job_id app r)
  unfolding reset_started
  Outcome-IsStart (applied event job next e j t) =
      let (control, controls) = ControlStore.get_or_create app.controls job_id in
      let cleared = clear_flags control in
      (
        moved-IsSound "start" event job next cleared
            (ControlStore.set_control controls job_id cleared) e j t
            (rw (started_running job.status next event e t) refl) cleared_lem,
        λ flags h.
            let is_cleared : cleared ≡ flags = cc in
            (
              sym is_cleared,
              rw (cleared_lem job_id, (eq_iff job_id job_id).1 refl) (ap some is_cleared),
            ),
      )
  Outcome-IsStart _ = (v, λ control h. cc)

  -- The start of a run, accepted or refused, keeps the jobs well stored and the flags in step; when
  -- it is accepted the run begins with both flags clear, and they are the stored ones.
  pub reset_run_control-IsSound : IsStart (reset_run_control now job_id app)
  unfolding reset_run_control
  reset_run_control-IsSound = Outcome-IsStart (apply_event-Outcome now app.jobs job_id "start")
