-- ===== src/Api/Schemas/Bounds.antt =====
-- What the bounds of a request to run a job mean for the run.
use nw_edit.Prelude.{
  ℕ, ◌≤◌, String, ◌≡◌, ap, true, some, List, [], arith, length, ℤ, pos, negsuc, inl, inr,
  Option-cases,
}
use nw_edit.Result.{ok, Result-cases}
use nw_edit.Dict
use nw_edit.Domain.Models.{JobRecord, DeviceTarget, DeviceExecutionResult}
use nw_edit.Stores.JobStore
use nw_edit.Stores.JobStore.{JobStore}
use nw_edit.Stores.DeviceStore.{DeviceStore}
use nw_edit.Engine.Env.{Thread, Setup}
use nw_edit.Engine.Retry.{rounds_of}
use nw_edit.Engine.Run.{Job, World, Run, exhausted, fill}
use nw_edit.Engine.Rounds.{rounds}
use nw_edit.Engine.RunJob.{run_job}
use nw_edit.Engine.Scheduling.Bounds.{fill-rounds-limit}
use nw_edit.Engine.Results.Source.{
  Source, answered, was_cancelled, untried, stranger, most_attempts,
}
use nw_edit.Engine.Results.Provenance.{recorded_results_are_real}
use nw_edit.Api.Preparation.{
  RunJobRequest, PreparedRun, refuse_if, given, resolve_run_targets, prepare_run,
}
use nw_edit.Api.Runs.{engine_job}
use nw_edit.Api.Schemas.{is_int_within, accepts_run}

resolved_config :
    (job_id : String) (payload : RunJobRequest) (jobs : JobStore) (store : DeviceStore)
    (prepared : PreparedRun) (job : JobRecord) (targets : List DeviceTarget) (canary : DeviceTarget)
    → JobStore.get jobs job_id ≡ some job
    → resolve_run_targets payload store ≡ ok (targets, canary)
    → prepare_run job_id payload jobs store ≡ ok prepared
    → prepared.config ≡ payload.config
unfolding prepare_run refuse_if given
resolved_config job_id payload jobs store prepared job targets canary j r h = grind arith

prepared_config :
    (job_id : String) (payload : RunJobRequest) (jobs : JobStore) (store : DeviceStore)
    (prepared : PreparedRun)
    → prepare_run job_id payload jobs store ≡ ok prepared
    → prepared.config ≡ payload.config
unfolding prepare_run given
prepared_config job_id payload jobs store prepared h =
    elim (Option-cases (JobStore.get jobs job_id)) [
      | inl j ↦ absurd (grind arith)
      | inr (job, j) ↦ elim (Result-cases (resolve_run_targets payload store)) [
        | inl (e, r) ↦ absurd (grind arith)
        | inr ((targets, canary), r) ↦
            resolved_config job_id payload jobs store prepared job targets canary j r h
      ]
    ]

accepted_concurrency :
    (payload : RunJobRequest)
    → accepts_run payload ≡ true
    → (1 ≤ payload.config.concurrency_limit) × (payload.config.concurrency_limit ≤ 100)
unfolding accepts_run
accepted_concurrency payload h = ground arith

few_rounds : (limit : ℤ) → is_int_within 0 3 limit ≡ true → rounds_of limit ≤ 4
few_rounds (pos n) h = ground arith
few_rounds (negsuc n) h = cc

accepted_rounds :
    (payload : RunJobRequest)
    → accepts_run payload ≡ true
    → rounds_of payload.config.non_canary_retry_limit ≤ 4
unfolding accepts_run
accepted_rounds payload h = few_rounds payload.config.non_canary_retry_limit (ground arith)

attempts-Source :
    (setup : Setup) (world : World) (job : Job) (k : String) (result : DeviceExecutionResult)
    → Source setup world job k result
    → result.attempts ≤ most_attempts setup world job
attempts-Source setup world job k result (answered answer n few called same) =
    omega (arith, ap (λ r. r.attempts) same)
attempts-Source setup world job k result (was_cancelled n few same) =
    omega (arith, ap (λ r. r.attempts) same)
attempts-Source setup world job k result (untried same) = omega (arith, ap (λ r. r.attempts) same)
attempts-Source setup world job k result (stranger key same) =
    omega (arith, ap (λ r. r.attempts) same)

module _ (setup : Setup) (world : World) (job_id : String) (payload : RunJobRequest)
    (jobs : JobStore) (store : DeviceStore) (prepared : PreparedRun)
    (accepted : accepts_run payload ≡ true)
    (made : prepare_run job_id payload jobs store ≡ ok prepared) where
  abbrev job : Job
  job = engine_job job_id payload prepared

  -- In the loop of the run of an accepted request, begun with nothing in flight: behind any number
  -- of rounds that have not ended it, and once the next round has filled the executor, at most as
  -- many devices are in flight as the request asks for, and that is at most 100.
  pub accepted_in_flight :
      (polls fuel : ℕ) (start : Run) (thread : Thread)
      → start.in_flight ≡ []
      → (rounds setup world (engine_job job_id payload prepared) polls fuel start).0 ≡ exhausted
      → (length
            (fill setup world
              (engine_job job_id payload prepared)
              (rounds setup world (engine_job job_id payload prepared) polls fuel start).1.pending
              (record (rounds setup world (engine_job job_id payload prepared) polls fuel start).1 {
                main = thread;
              })).in_flight
          ≤ payload.config.concurrency_limit)
        × (payload.config.concurrency_limit ≤ 100)
  unfolding engine_job
  accepted_in_flight polls fuel start thread idle goes_on =
      let (some_room, bound) = accepted_concurrency payload accepted in
      let config = prepared_config job_id payload jobs store prepared made in
      let few = fill-rounds-limit setup world job polls fuel start thread idle goes_on in
      (omega (arith, ap (λ c. c.concurrency_limit) config), bound)

  -- However the run of an accepted request ends, a result that it records counts at most 4 attempts.
  pub accepted_attempts :
      (polls fuel : ℕ) (k : String) (result : DeviceExecutionResult)
      → Dict.get
          (run_job setup world
            (engine_job job_id payload prepared)
            polls
            fuel).1.summary.device_results
          k
        ≡ some result
      → result.attempts ≤ 4
  unfolding engine_job
  accepted_attempts polls fuel k result recorded =
      let few =
        attempts-Source setup world job k result
          (recorded_results_are_real setup world job polls fuel k result recorded) in
      let config = prepared_config job_id payload jobs store prepared made in
      let rounds = ap (λ c. rounds_of c.non_canary_retry_limit) config in
      omega (arith, rounds, accepted_rounds payload accepted)
