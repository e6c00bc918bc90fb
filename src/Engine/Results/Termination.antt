-- ===== src/Engine/Results/Termination.antt =====
-- A run comes to an end.
use nw_edit.Prelude.{
  ℕ, ◌<◌, ◌≡◌, refl, ap, ◌∙◌, ◌≢◌, none, some, pos, inl, inr, not, List, [], ◌∷◌, arith, ◌==◌, any,
  length, length-filter-le, is_empty, Bool-cases,
}
use nw_edit.Domain.Models.{DeviceTarget, target_key}
use nw_edit.Engine.Env.{Reply, returned, raised, Setup, tick, cancel_seen}
use nw_edit.Engine.Retry.{run_with_retry}
use nw_edit.Engine.Run.{Job, World, Run, exhausted, say, record_result, task_of}
use nw_edit.Engine.RunJob.{
  remaining, first_run, announce_queued, reject_canary, run_remaining, after_canary, run_canary,
  run_job,
}
use nw_edit.Engine.Total.{PausesEnd, rounds-total}

module _ (setup : Setup) (world : World) (job : Job) where
  in_flight-announce_queued :
      (devices : List DeviceTarget) (run : Run)
      → (announce_queued setup world job devices run).in_flight ≡ run.in_flight
  unfolding announce_queued
  in_flight-announce_queued [] run = refl
  in_flight-announce_queued (device ∷ devices) run = in_flight-announce_queued devices _

  module _ (polls fuel : ℕ) (pauses : PausesEnd polls world.main)
      (enough : length job.devices < fuel) where
    run_remaining-total :
        (run : Run)
        → run.in_flight ≡ []
        → (run_remaining setup world job polls fuel run).0 ≢ exhausted
    unfolding run_remaining
    run_remaining-total run e = elim (Bool-cases (is_empty (remaining setup world job))) [
      | inl alone ↦ rw (alone, run_remaining) (λ out. cc)
      | inr others ↦
          rw (others, run_remaining)
            (rounds-total setup world job polls fuel _ pauses (
              omega (
                arith,
                ap length e,
                length-filter-le (λ d. not (target_key d == target_key job.canary)) job.devices,
              )))
    ]

    after_canary-total :
        (reply : Reply) (run : Run)
        → run.in_flight ≡ []
        → (after_canary setup world job polls fuel reply run).0 ≢ exhausted
    unfolding after_canary
    after_canary-total (raised error) run e = λ out. cc
    after_canary-total (returned result) run e = elim (Bool-cases (result.status == "success")) [
      | inl good ↦
          rw (good, after_canary)
            (run_remaining-total (record_result setup world job job.canary result run) e)
      | inr bad ↦ rw (bad, after_canary) (λ out. cc)
    ]

    run_canary-total :
        (run : Run) → run.in_flight ≡ [] → (run_canary setup world job polls fuel run).0 ≢ exhausted
    unfolding run_canary
    run_canary-total run e =
        let queued_up = announce_queued setup world job job.devices run in
        let ready =
          say setup world job queued_up "device_status" (some (target_key job.canary))
            (some "running") (some "Starting canary") in
        let task = task_of setup world job job.canary (pos 0) 0 in
        let (reply, thread) = run_with_retry setup world.main task ready.main in
        after_canary-total reply (record ready { main = thread })
          (in_flight-announce_queued job.devices run ∙ e)

    -- A run returns or raises, and does not run out of fuel: with more fuel than there are targets,
    -- and if every pause ends, or is cut short by a cancellation, within `polls` polls.
    pub run_job-total : (run_job setup world job polls fuel).0 ≢ exhausted
    unfolding run_job
    run_job-total =
        let first =
          say setup world job (first_run setup world job) "job_status" none (some "running") none in
        let begun : Run = record first { main = tick first.main } in
        elim (Bool-cases (cancel_seen setup world.main first.main)) [
          | inl seen ↦ rw (seen, run_job) (λ out. cc)
          | inr clear ↦
              rw (clear, run_job)
                (elim (Bool-cases (is_empty job.devices)) [
                  | inl empty ↦ rw empty (λ out. cc)
                  | inr some_device ↦
                      rw some_device
                        (elim (Bool-cases
                          (any (λ d. target_key d == target_key job.canary) job.devices)) [
                            | inl member ↦ rw member (run_canary-total begun refl)
                            | inr stranger ↦ rw (stranger, reject_canary) (λ out. cc)
                          ])
                ])
        ]
