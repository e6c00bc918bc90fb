-- ===== src/Engine/Course.antt =====
-- The ways that a run can take, from its start to its end.
use nw_edit.Prelude.{
  ℕ, String, ◌≡◌, refl, ◌≢◌, ◌⊎◌, inl, inr, none, some, List, [], ◌∷◌, pos, arith, ◌==◌, eq_iff,
  any, is_empty, is_empty-eq-true, Bool-cases,
}
use nw_edit.Result.{Error}
use nw_edit.Dict
use nw_edit.Domain.Models.{
  JobStatus, completed, failed, cancelled, DeviceTarget, target_key, DeviceExecutionResult,
  result_of,
}
use nw_edit.Engine.Env.{Reply, returned, raised, Thread, new_thread, Setup, tick, cancel_seen}
use nw_edit.Engine.Retry.{run_with_retry}
use nw_edit.Engine.Run.{Job, World, Run, Ending, failure, say, task_of, complete_as, record_result}
use nw_edit.Engine.RunJob.{
  remaining, first_run, announce_queued, not_a_target, reject_canary, status_of_canary,
  run_remaining, after_canary, run_canary, run_job,
}
use nw_edit.Engine.Steps.Loop.{Ended, rounds-Ended}
use nw_edit.Engine.Silence.{
  IsSilent, emit-IsSilent, status_not_last, run_with_retry-IsSilent, record_result-IsSilent,
}

module _ (setup : Setup) (world : World) (job : Job) where
  -- Nothing has been started or recorded.
  pub record IsFresh (run : Run) : Type 0 where
    pub none_submitted : run.submitted ≡ []
    pub none_in_flight : run.in_flight ≡ []
    pub none_recorded : run.summary.device_results ≡ []
    pub silent : IsSilent run.main

  -- The start of the parallel part: the canary's result is recorded, the rest is pending.
  abbrev pub fan_out : DeviceExecutionResult → Run → Run
  fan_out result run = record (record_result setup world job job.canary result run) {
    pending = remaining setup world job;
  }

  -- The answer of the canary's only attempt.
  abbrev pub CanaryTold : Reply → Type 0
  CanaryTold reply =
      (thread : Thread) × ((run_with_retry setup world.main
          (task_of setup world job job.canary (pos 0) 0) thread).0
        ≡ reply)

  abbrev pub rejected : DeviceExecutionResult
  rejected = record (result_of "failed") { error = some (not_a_target setup world job) }

  -- No result is recorded, or that of a canary that is none of the devices.
  abbrev pub NoneCalled : Run → Type 0
  NoneCalled run =
      (run.summary.device_results ≡ [])
      ⊎ (run.summary.device_results ≡ (target_key job.canary, rejected) ∷ [])

  pub data Course (out : Ending × Run) : Type 0 where
    -- cancelled before the canary, or nothing to run on
    refused :
        (last : Run) (status : JobStatus)
        → (status ≡ cancelled) ⊎ (status ≡ failed)
        → last.submitted ≡ []
        → NoneCalled last
        → IsSilent last.main
        → out ≡ complete_as setup world job status last
        → Course out
    canary_raised :
        (last : Run) (error : Error)
        → IsFresh last
        → CanaryTold (raised error)
        → out ≡ (failure error, last)
        → Course out
    canary_failed :
        (last : Run) (result : DeviceExecutionResult)
        → IsFresh last
        → CanaryTold (returned result)
        → result.status ≢ "success"
        → out
          ≡ complete_as setup world job
              (status_of_canary setup world job result)
              (record_result setup world job job.canary result last)
        → Course out
    canary_alone :
        (last : Run) (result : DeviceExecutionResult)
        → IsFresh last
        → CanaryTold (returned result)
        → result.status ≡ "success"
        → remaining setup world job ≡ []
        → out
          ≡ complete_as setup world job completed
              (record_result setup world job job.canary result last)
        → Course out
    fanned_out :
        (last : Run) (result : DeviceExecutionResult)
        → IsFresh last
        → CanaryTold (returned result)
        → result.status ≡ "success"
        → Ended setup world job (fan_out result last) out
        → Course out

  after_canary-Course :
      (polls fuel : ℕ) (reply : Reply) (run : Run)
      → IsFresh run
      → CanaryTold reply
      → Course (after_canary setup world job polls fuel reply run)
  unfolding after_canary
  after_canary-Course polls fuel (raised error) run fresh told =
      canary_raised run error fresh told refl
  after_canary-Course polls fuel (returned result) run fresh told =
      elim (Bool-cases (result.status == "success")) [
        | inr bad ↦
            rw (bad, after_canary)
              (canary_failed run result fresh told
                (λ e. cc (bad, (eq_iff result.status "success").1 e)) refl)
        | inl good ↦
            rw (good, after_canary)
              (let success = (eq_iff result.status "success").0 good in
                elim (Bool-cases (is_empty (remaining setup world job))) [
                  | inl alone ↦
                      rw (alone, run_remaining)
                        (canary_alone run result fresh told success (is_empty-eq-true _ alone) refl)
                  | inr others ↦
                      rw (others, run_remaining)
                        (fanned_out run result fresh told success
                          (rounds-Ended setup world job polls fuel (fan_out result run)))
                ])
      ]

  announce_queued-IsFresh :
      (devices : List DeviceTarget) (run : Run)
      → IsFresh run
      → IsFresh (announce_queued setup world job devices run)
  unfolding announce_queued
  announce_queued-IsFresh [] run h = h
  announce_queued-IsFresh (device ∷ devices) run h = announce_queued-IsFresh devices _ (record {
    none_submitted = h.none_submitted;
    none_in_flight = h.none_in_flight;
    none_recorded = h.none_recorded;
    silent = emit-IsSilent setup world.main run.main _ _ _ _ _ status_not_last h.silent;
  })

  run_canary-Course :
      (polls fuel : ℕ) (run : Run)
      → IsFresh run
      → Course (run_canary setup world job polls fuel run)
  unfolding run_canary
  run_canary-Course polls fuel run h =
      let queued_up = announce_queued setup world job job.devices run in
      let fresh = announce_queued-IsFresh job.devices run h in
      let key = some (target_key job.canary) in
      let ready =
        say setup world job queued_up "device_status" key (some "running")
          (some "Starting canary") in
      let ready-IsSilent =
        emit-IsSilent setup world.main queued_up.main "device_status" job.job_id key
          (some "running") (some "Starting canary") status_not_last fresh.silent in
      let task = task_of setup world job job.canary (pos 0) 0 in
      let (reply, thread) = run_with_retry setup world.main task ready.main in
      after_canary-Course polls fuel reply (record ready { main = thread })
        (record {
          none_submitted = fresh.none_submitted;
          none_in_flight = fresh.none_in_flight;
          none_recorded = fresh.none_recorded;
          silent = run_with_retry-IsSilent setup world.main task ready.main ready-IsSilent;
        })
        (ready.main, refl)

  first_not_last : ◌≢◌ {A = String} "job_status" "job_complete"
  first_not_last = ground (arith, eq_iff "job_status" "job_complete")

  -- The run behind its first event and the first look at the cancel flag.
  abbrev pub begun : Run
  begun =
      let run =
        say setup world job (first_run setup world job) "job_status" none (some "running") none in
      record run { main = tick run.main }

  begun-IsFresh : IsFresh begun
  begun-IsFresh = record {
    none_submitted = refl;
    none_in_flight = refl;
    none_recorded = refl;
    silent = emit-IsSilent setup world.main new_thread _ _ _ _ _ first_not_last tt;
  }

  -- Every run of a job takes one of these courses.
  pub run_job-Course : (polls fuel : ℕ) → Course (run_job setup world job polls fuel)
  unfolding run_job record_result Dict.put
  run_job-Course polls fuel =
      let fresh = begun-IsFresh in
      let first =
        say setup world job (first_run setup world job) "job_status" none (some "running") none in
      elim (Bool-cases (cancel_seen setup world.main first.main)) [
        | inl seen ↦
            rw (seen, run_job)
              (refused begun cancelled (inl refl) refl (inl refl) fresh.silent refl)
        | inr clear ↦
            rw (clear, run_job)
              (elim (Bool-cases (is_empty job.devices)) [
                | inl empty ↦
                    rw empty (refused begun failed (inr refl) refl (inl refl) fresh.silent refl)
                | inr some_device ↦
                    rw some_device
                      (elim (Bool-cases
                        (any (λ d. target_key d == target_key job.canary) job.devices)) [
                          | inl member ↦ rw member (run_canary-Course polls fuel begun fresh)
                          | inr stranger ↦
                              rw (stranger, reject_canary)
                                (refused (record_result setup world job job.canary rejected begun)
                                  failed (inr refl) refl (inr refl)
                                  (record_result-IsSilent setup world job job.canary rejected begun
                                    fresh.silent)
                                  refl)
                        ])
              ])
      ]
