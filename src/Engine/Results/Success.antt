-- ===== src/Engine/Results/Success.antt =====
-- What `completed` means.
use nw_edit.Prelude.{
  ℕ, ◌≤◌, String, ◌≡◌, ap, inl, inr, true, false, some, [], arith, ◌==◌, eq_iff, Bool-cases,
  if◌then◌else◌,
}
use nw_edit.Dict
use nw_edit.Dict.Laws.{get-put_self}
use nw_edit.Domain.Models.{completed, cancelled, target_key, DeviceExecutionResult}
use nw_edit.Engine.Env.{Setup, cancel_seen}
use nw_edit.Engine.Run.{Job, World, Run, Ending, finished, has_failure, complete_as, record_result}
use nw_edit.Engine.Rounds.{conclude}
use nw_edit.Engine.RunJob.{remaining, status_of_canary, run_job}
use nw_edit.Engine.Steps.Loop.{Ended, concluded, cancelled_end, crashed, out_of_fuel}
use nw_edit.Engine.Scheduling.Distinct.{in_devices, in_flights, in_results}
use nw_edit.Engine.Scheduling.Canary.{in_devices-remaining}
use nw_edit.Engine.Scheduling.Coverage.{
  Covers, WasCancelled, moves-Covers, Covers-recorded, success_of-in_results,
}
use nw_edit.Engine.Course.{
  IsFresh, fan_out, Course, refused, canary_raised, canary_failed, canary_alone, fanned_out,
  run_job-Course,
}

module _ (setup : Setup) (world : World) (job : Job) where
  -- A cancel flag that the engine's thread has seen set stays set for it.
  abbrev pub CancelStays : Type 0
  CancelStays = (c d : ℕ) → c ≤ d → world.main.cancel c ≡ true → world.main.cancel d ≡ true

  -- No two targets have one key.
  abbrev pub DistinctKeys : Type 0
  DistinctKeys = (k : String) → in_devices k job.devices ≤ 1

  module _ (stays : CancelStays) (distinct : DistinctKeys) where
    fan_out-results :
        (result : DeviceExecutionResult) (run : Run)
        → IsFresh setup world job run
        → (k : String)
        → in_results k (fan_out setup world job result run).summary.device_results
          ≡ (if target_key job.canary == k then 1 else 0)
    unfolding record_result in_results Dict.put
    fan_out-results result run fresh k = rw fresh.none_recorded (ground arith)

    fan_out-Covers :
        (result : DeviceExecutionResult) (run : Run)
        → IsFresh setup world job run
        → Covers setup world job job.devices (fan_out setup world job result run)
    unfolding record_result in_flights
    fan_out-Covers result run fresh = record {
      distinct = record {
        once = λ k. ground (
          arith,
          distinct k,
          ap (in_flights k) fresh.none_in_flight,
          in_devices-remaining setup world job k,
          fan_out-results result run fresh k,
          eq_iff k (target_key job.canary),
          eq_iff (target_key job.canary) k,
        );
      };
      tracked = inl (λ k target. ground (
        arith,
        in_devices-remaining setup world job k,
        fan_out-results result run fresh k,
        eq_iff k (target_key job.canary),
        eq_iff (target_key job.canary) k,
      ));
    }

    not_cancelled :
        (run : Run)
        → cancel_seen setup world.main run.main ≡ false
        → ¬ WasCancelled setup world job run
    not_cancelled run clear (clock, before, seen) =
        ground (arith, stays clock run.main.clock (omega arith))

    module _ (k : String) (target : 1 ≤ in_devices k job.devices) where
      abbrev Succeeded : Run → Type 0
      Succeeded run =
          (result : DeviceExecutionResult) × (Dict.get run.summary.device_results k ≡ some result)
          × (result.status ≡ "success")

      concluded-Succeeded :
          (run : Run)
          → Covers setup world job job.devices run
          → run.pending ≡ []
          → run.in_flight ≡ []
          → (conclude setup world job run).1.summary.status ≡ completed
          → Succeeded (conclude setup world job run).1
      unfolding conclude complete_as
      concluded-Succeeded run covers p f h =
          elim (Bool-cases (cancel_seen setup world.main run.main)) [
            | inl seen ↦ cc (rw seen at h)
            | inr clear ↦ elim (Bool-cases (has_failure run.summary)) [
              | inl bad ↦ cc (rw (clear, bad) at h)
              | inr good ↦ success_of-in_results k run.summary.device_results good (
                  Covers-recorded setup world job job.devices covers p f good
                    (not_cancelled run clear) k target)
            ]
          ]

      Ended-Succeeded :
          {start : Run} {out : Ending × Run}
          → Covers setup world job job.devices start
          → Ended setup world job start out
          → out.0 ≡ finished
          → out.1.summary.status ≡ completed
          → Succeeded out.1
      unfolding complete_as
      Ended-Succeeded covers (concluded {last = last} r p f e) h done = rw e (
          concluded-Succeeded last (moves-Covers setup world job job.devices covers r) p f
            (rw e at done))
      Ended-Succeeded covers (cancelled_end {last = last} r e) h done =
          let is_completed : cancelled ≡ completed = rw e at done in cc
      Ended-Succeeded covers (crashed error left flight told r e) h done = cc (rw e at h)
      Ended-Succeeded covers (out_of_fuel r e) h done = cc (rw e at h)

      alone-Succeeded :
          (result : DeviceExecutionResult) (run : Run)
          → result.status ≡ "success"
          → remaining setup world job ≡ []
          → Succeeded (record_result setup world job job.canary result run)
      unfolding record_result in_devices
      alone-Succeeded result run good alone =
          let is_canary : k ≡ target_key job.canary = ground (
            arith,
            in_devices-remaining setup world job k,
            ap (in_devices k) alone,
            eq_iff k (target_key job.canary),
          ) in
          (result, rw is_canary (get-put_self run.summary.device_results _ result), good)

      Course-Succeeded :
          {out : Ending × Run}
          → Course setup world job out
          → out.0 ≡ finished
          → out.1.summary.status ≡ completed
          → Succeeded out.1
      unfolding complete_as
      Course-Succeeded (refused last status s none_started unrun quiet e) h done =
          let is_completed : status ≡ completed = rw e at done in ground arith
      Course-Succeeded (canary_raised last error fresh told e) h done = cc (rw e at h)
      Course-Succeeded (canary_failed last result fresh told bad e) h done =
          let is_completed : status_of_canary setup world job result ≡ completed = rw e at done in
          ground arith
      Course-Succeeded (canary_alone last result fresh told good alone e) h done =
          rw e (alone-Succeeded result last good alone)
      Course-Succeeded (fanned_out last result fresh told good ended) h done =
          Ended-Succeeded (fan_out-Covers result last fresh) ended h done

      -- When a run returns `completed`, every target has a successful result: if no two targets
      -- share a key, and a cancel flag once seen set stays set.
      pub completed_all_succeeded :
          (polls fuel : ℕ)
          → (run_job setup world job polls fuel).0 ≡ finished
          → (run_job setup world job polls fuel).1.summary.status ≡ completed
          → (result : DeviceExecutionResult) × (Dict.get
                (run_job setup world job polls fuel).1.summary.device_results
                k
              ≡ some result)
            × (result.status ≡ "success")
      completed_all_succeeded polls fuel =
          Course-Succeeded (run_job-Course setup world job polls fuel)
