-- ===== src/JobService/Invariant.antt =====
-- The invariant of the job store: a job is stored under its own id, and its time stamps fit its
-- status.
use nw_edit.Prelude.{
  String, ◌≡◌, refl, Bool, true, false, not, none, some, arith, ◌==◌, eq_iff, is_some, subst,
  if◌then◌else◌,
}
use nw_edit.Result.{Result, ok}
use nw_edit.Dict.{Dict}
use nw_edit.Domain.Models.{
  JobRecord, JobStatus, queued, running, paused, completed, failed, is_active_job_status, JobEvent,
  start,
}
use nw_edit.Domain.StateMachine.{transitions}
use nw_edit.Stores.JobStore
use nw_edit.Stores.JobStore.{JobStore}
use nw_edit.Stores.Laws.{get-save}
use nw_edit.JobService.{new_job, create_job, moved_job, apply_event}
use nw_edit.JobService.Effects.{Outcome, applied, apply_event-Outcome}

-- A job of this status has been started.
abbrev pub is_started : JobStatus → Bool
is_started running = true
is_started paused = true
is_started completed = true
is_started failed = true
is_started _ = false

-- `completed_at` is set exactly on a finished job, `started_at` on every job that has run and on no
-- queued one. (A cancelled job may have either.)
pub record IsStamped (job : JobRecord) : Type 0 where
  pub ended : is_some job.completed_at ≡ not (is_active_job_status job.status)
  pub started : is_started job.status ≡ true → is_some job.started_at ≡ true
  pub waiting : job.status ≡ queued → job.started_at ≡ none

moved_job-IsStamped :
    (now : String) (event : JobEvent) (next : JobStatus) (job : JobRecord)
    → transitions job.status event ≡ some next
    → IsStamped job
    → IsStamped (moved_job now event next job)
unfolding moved_job
moved_job-IsStamped now start next job t v = ground arith
moved_job-IsStamped now _ next job t v = ground arith

pub record IsStored (jobs : JobStore) : Type 0 where
  pub at :
      (k : String) (job : JobRecord)
      → JobStore.get jobs k ≡ some job
      → (job.job_id ≡ k) × IsStamped job

-- Saving a well-stamped job keeps the invariant.
save-IsStored :
    (jobs : JobStore) (job : JobRecord)
    → IsStamped job
    → IsStored jobs
    → IsStored (JobStore.save jobs job)
save-IsStored jobs job s v = record {
  at = λ k found h. read (job.job_id == k) k found ((eq_iff job.job_id k).0) (rw get-save at h);
}
  where
    read :
        (same : Bool) (k : String) (found : JobRecord)
        → (same ≡ true → job.job_id ≡ k)
        → (if same then some job else JobStore.get jobs k) ≡ some found
        → (found.job_id ≡ k) × IsStamped found
    read true k found e h =
        let is_job : job ≡ found = cc in
        subst (λ (j : JobRecord). (j.job_id ≡ k) × IsStamped j) is_job (e refl, s)
    read false k found e h = v.at k found h

module _ (now : String) (jobs : JobStore) where
  -- Creating a job keeps every job stored under its id with stamps that fit its status.
  pub create_job-IsStored :
      (job_id job_name creator : String) (global_vars : Dict String)
      → IsStored jobs
      → IsStored (create_job job_id now jobs job_name creator global_vars).1
  unfolding create_job
  create_job-IsStored job_id job_name creator global_vars v =
      save-IsStored jobs (new_job job_id now job_name creator global_vars) (ground arith) v

  Outcome-IsStored :
      (job_id event_name : String) {r : Result (JobRecord × JobStore)}
      → Outcome now jobs job_id event_name r
      → IsStored jobs
      → (after : JobRecord × JobStore) → r ≡ ok after
      → IsStored after.1
  Outcome-IsStored job_id event_name (applied event job next e j t) v after h =
      let job' = moved_job now event next job in
      let is_after : (job', JobStore.save jobs job') ≡ after = cc in
      subst (λ (a : JobRecord × JobStore). IsStored a.1) is_after
        (save-IsStored jobs job' (moved_job-IsStamped now event next job t (v.at job_id job j).1) v)
  Outcome-IsStored job_id event_name _ v after h = cc

  -- Whatever event is applied to whatever job: if every job was stored under its id with stamps that
  -- fit its status, this holds of the store that comes out.
  pub apply_event-IsStored :
      (job_id event_name : String) (after : JobRecord × JobStore)
      → IsStored jobs
      → apply_event now jobs job_id event_name ≡ ok after
      → IsStored after.1
  apply_event-IsStored job_id event_name after v h =
      Outcome-IsStored job_id event_name (apply_event-Outcome now jobs job_id event_name) v after h
