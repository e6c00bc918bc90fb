-- ===== src/Api/Control/InStep.antt =====
-- The flags that the engine reads fit the status of the job.
use nw_edit.Prelude.{
  String, ◌≡◌, refl, Bool, true, not, ◌&&◌, none, some, arith, ◌==◌, eq_iff, if◌then◌else◌,
}
use nw_edit.Domain.Models.{JobRecord, JobStatus, running, paused, JobEvent, pause, resume, cancel}
use nw_edit.Domain.StateMachine.{transitions}
use nw_edit.Stores.JobStore
use nw_edit.Stores.JobStore.{JobStore}
use nw_edit.Stores.ControlStore
use nw_edit.Stores.ControlStore.{ControlStore, ExecutionControl}
use nw_edit.Stores.Laws.{get-save, get-set_control}
use nw_edit.JobService.{event_map}
use nw_edit.Api.Execution.{Action}
use nw_edit.Api.Control.{pausing, resuming, cancelling}

-- A running job has both flags clear; a paused one has the pause flag alone set.
abbrev pub flags_fit : JobStatus → ExecutionControl → Bool
flags_fit running control = not control.pause_event && not control.cancel_event
flags_fit paused control = control.pause_event && not control.cancel_event
flags_fit _ control = true

pub record IsInStep (jobs : JobStore) (controls : ControlStore) : Type 0 where
  pub at :
      (k : String) (job : JobRecord) (control : ExecutionControl)
      → JobStore.get jobs k ≡ some job
      → ControlStore.get controls k ≡ some control
      → flags_fit job.status control ≡ true

module _ {jobs : JobStore} {controls : ControlStore} (v : IsInStep jobs controls) where
  -- Flags that fit the status of their job may be written.
  pub set_control-IsInStep :
      (job_id : String) (job : JobRecord) (control : ExecutionControl)
      → JobStore.get jobs job_id ≡ some job
      → flags_fit job.status control ≡ true
      → IsInStep jobs (ControlStore.set_control controls job_id control)
  set_control-IsInStep job_id job control j fit = record {
    at = λ k found flags h g.
        ground
          (arith, get-set_control controls job_id control k, eq_iff job_id k, v.at k found flags h);
  }

  -- So may a job together with flags that fit it.
  pub save-IsInStep :
      (job_id : String) (job : JobRecord) (control : ExecutionControl) (after : ControlStore)
      → job.job_id ≡ job_id
      → flags_fit job.status control ≡ true
      → ((k : String)
          → ControlStore.get after k
            ≡ (if job_id == k then some control else ControlStore.get controls k))
      → IsInStep (JobStore.save jobs job) after
  save-IsInStep job_id job control after own fit written = record {
    at = λ k found flags h g.
        ground (arith, get-save jobs job k, written k, eq_iff job_id k, v.at k found flags);
  }

-- What an action does to the flags fits the status that it leads to, and the status that refuses it.
pub record IsFitting (event : JobEvent) (action : Action) : Type 0 where
  pub known : event_map action.event_name ≡ some event
  pub moves :
      (status next : JobStatus) (control : ExecutionControl)
      → transitions status event ≡ some next
      → flags_fit status control ≡ true
      → flags_fit next (action.mutate_control control) ≡ true
  pub refused :
      (status : JobStatus) (control : ExecutionControl)
      → transitions status event ≡ none
      → flags_fit status control ≡ true
      → flags_fit status (action.mutate_control control) ≡ true

pub pausing-IsFitting : IsFitting pause pausing
unfolding event_map
pausing-IsFitting = record {
  known = refl;
  moves = λ s n c t f. ground arith;
  refused = λ s c t f. ground arith;
}

pub resuming-IsFitting : IsFitting resume resuming
unfolding event_map
resuming-IsFitting = record {
  known = refl;
  moves = λ s n c t f. ground arith;
  refused = λ s c t f. ground arith;
}

pub cancelling-IsFitting : IsFitting cancel cancelling
unfolding event_map
cancelling-IsFitting = record {
  known = refl;
  moves = λ s n c t f. ground arith;
  refused = λ s c t f. ground arith;
}
