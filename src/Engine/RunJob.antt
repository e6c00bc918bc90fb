-- ===== src/Engine/RunJob.antt =====
-- `run_job` of execution_engine.py: the canary, and the loop over the other devices.
use nw_edit.Prelude.{
  ℕ, String, true, false, none, some, List, [], ◌∷◌, pos, ◌==◌, not, map, filter, any, is_empty,
  or_default, if◌then◌else◌,
}
use nw_edit.Domain.Models.{
  JobStatus, running, completed, failed, cancelled, DeviceTarget, target_key, DeviceExecutionResult,
  result_of, JobRunSummary,
}
use nw_edit.Engine.Env.{Reply, returned, raised, new_thread, Setup, tick, cancel_seen}
use nw_edit.Engine.Retry.{run_with_retry}
use nw_edit.Engine.Run.{Job, World, Run, Ending, say, complete_as, record_result, task_of, failure}
use nw_edit.Engine.Rounds.{rounds}

module _ (setup : Setup) (world : World) (job : Job) where
  -- The devices that are left for the parallel part.
  abbrev pub remaining : List DeviceTarget
  remaining = filter (λ d. not (target_key d == target_key job.canary)) job.devices

  abbrev pub first_summary : JobRunSummary
  first_summary = record {
    job_id = job.job_id;
    status = running;
    device_results = [];
    commands = or_default job.commands [];
    verify_commands = or_default job.verify_commands [];
    target_device_keys = map target_key job.devices;
  }

  abbrev pub first_run : Run
  first_run = record {
    main = new_thread;
    summary = first_summary;
    pending = [];
    in_flight = [];
    submitted = [];
  }

  -- `device_status` "queued" for each device.
  unfoldable pub announce_queued : List DeviceTarget → Run → Run
  announce_queued [] run = run
  announce_queued (device ∷ devices) run = announce_queued devices (
      say setup world job run "device_status" (some (target_key device)) (some "queued")
        (some "Queued for execution"))

  abbrev pub not_a_target : String
  not_a_target = "Canary is not part of target devices"

  -- The canary is none of the devices: `device_results` gets a failed entry.
  unfoldable pub reject_canary : Run → Ending × Run
  unfolding record_result complete_as
  reject_canary run = complete_as setup world job failed (
      record_result setup world job job.canary
        (record (result_of "failed") { error = some not_a_target }) run)

  abbrev pub status_of_canary : DeviceExecutionResult → JobStatus
  status_of_canary result = if result.status == "cancelled" then cancelled else failed

  -- After a successful canary.
  unfoldable pub run_remaining : (polls fuel : ℕ) → Run → Ending × Run
  unfolding rounds complete_as
  run_remaining polls fuel run = elim (is_empty remaining) [
    | true ↦ complete_as setup world job completed run
    | false ↦ rounds setup world job polls fuel (record run { pending = remaining })
  ]

  -- What follows the answer of the canary's only attempt.
  unfoldable pub after_canary : (polls fuel : ℕ) → Reply → Run → Ending × Run
  unfolding record_result complete_as run_remaining
  after_canary polls fuel (raised e) run = (failure e, run)
  after_canary polls fuel (returned result) run =
      let run' = record_result setup world job job.canary result run in
      elim (result.status == "success") [
        | true ↦ run_remaining polls fuel run'
        | false ↦ complete_as setup world job (status_of_canary result) run'
      ]

  unfoldable pub run_canary : (polls fuel : ℕ) → Run → Ending × Run
  unfolding announce_queued run_with_retry after_canary
  run_canary polls fuel run =
      let queued_up = announce_queued job.devices run in
      let ready =
        say setup world job queued_up "device_status" (some (target_key job.canary))
          (some "running") (some "Starting canary") in
      let (reply, thread) =
        run_with_retry setup world.main (task_of setup world job job.canary (pos 0) 0) ready.main in
      after_canary polls fuel reply (record ready { main = thread })

  unfoldable pub run_job : (polls fuel : ℕ) → Ending × Run
  unfolding complete_as reject_canary run_canary
  run_job polls fuel =
      let run = say setup world job first_run "job_status" none (some "running") none in
      let ticked = record run { main = tick run.main } in
      elim (cancel_seen setup world.main run.main) [
        | true ↦ complete_as setup world job cancelled ticked
        | false ↦ elim (is_empty job.devices) [
          | true ↦ complete_as setup world job failed ticked
          | false ↦ elim (any (λ d. target_key d == target_key job.canary) job.devices) [
            | false ↦ reject_canary ticked
            | true ↦ run_canary polls fuel ticked
          ]
        ]
      ]
