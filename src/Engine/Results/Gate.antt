-- ===== src/Engine/Results/Gate.antt =====
-- The canary goes first, and the others follow in order.
use nw_edit.Prelude.{ℕ, ◌≡◌, refl, ◌⊎◌, inl, inr, some, List, [], ◌++◌, arith, eq_iff}
use nw_edit.Dict
use nw_edit.Dict.Laws.{get-put_self}
use nw_edit.Domain.Models.{DeviceTarget, target_key, DeviceExecutionResult}
use nw_edit.Engine.Env.{Setup}
use nw_edit.Engine.Run.{Job, World, Run, Ending, complete_as, record_result}
use nw_edit.Engine.Rounds.{conclude}
use nw_edit.Engine.RunJob.{remaining, run_job}
use nw_edit.Engine.Steps.{◌⟶*◌}
use nw_edit.Engine.Steps.Loop.{Ended, concluded, cancelled_end, crashed, out_of_fuel}
use nw_edit.Engine.Scheduling.Order.{started, InOrder, moves-InOrder}
use nw_edit.Engine.Scheduling.Distinct.{in_flights}
use nw_edit.Engine.Scheduling.Canary.{Settled, moves-Settled, in_devices-remaining}
use nw_edit.Engine.Course.{
  IsFresh, fan_out, Course, refused, canary_raised, canary_failed, canary_alone, fanned_out,
  run_job-Course,
}

module _ (setup : Setup) (world : World) (job : Job) where
  -- What is submitted is a first part of the remaining devices, and it is nothing unless the
  -- canary's result is recorded and a success.
  pub record IsGated (run : Run) : Type 0 where
    pub left : List DeviceTarget
    pub in_order : started run ++ left ≡ remaining setup world job
    pub gate :
        (run.submitted ≡ [])
        ⊎ ((result : DeviceExecutionResult) × (Dict.get run.summary.device_results
                (target_key job.canary)
              ≡ some result)
            × (result.status ≡ "success"))

  nothing_started : {run : Run} → run.submitted ≡ [] → IsGated run
  nothing_started e = record {
    left = remaining setup world job;
    in_order = rw e refl;
    gate = inl e;
  }

  fresh-InOrder :
      (result : DeviceExecutionResult) (run : Run)
      → IsFresh setup world job run
      → InOrder (remaining setup world job) (fan_out setup world job result run)
  unfolding record_result
  fresh-InOrder result run fresh = record {
    left = remaining setup world job;
    split = rw fresh.none_submitted refl;
    waiting = inl refl;
  }

  fresh-Settled :
      (result : DeviceExecutionResult) (run : Run)
      → IsFresh setup world job run
      → Settled setup world job result (fan_out setup world job result run)
  unfolding record_result in_flights
  fresh-Settled result run fresh =
      let key = target_key job.canary in
      record {
        no_other =
            rw fresh.none_in_flight
              (ground (arith, in_devices-remaining setup world job key, eq_iff key key));
        recorded = get-put_self run.summary.device_results key result;
      }

  -- What has been reached from the start of the parallel part.
  reached-IsGated :
      (result : DeviceExecutionResult) (start run : Run)
      → IsFresh setup world job start
      → result.status ≡ "success"
      → ◌⟶*◌ setup world job (fan_out setup world job result start) run
      → IsGated run
  reached-IsGated result start run fresh good moves =
      let order = moves-InOrder setup world job _ (fresh-InOrder result start fresh) moves in
      record {
        left = order.left;
        in_order = order.split;
        gate = inr (
          result,
          (moves-Settled setup world job result moves (fresh-Settled result start fresh)).recorded,
          good,
        );
      }

  same-IsGated :
      {run after : Run}
      → after.submitted ≡ run.submitted
      → after.summary.device_results ≡ run.summary.device_results
      → IsGated run
      → IsGated after
  same-IsGated s r h = record { left = h.left; in_order = rw s h.in_order; gate = rw (s, r) h.gate }

  Ended-IsGated :
      {start : Run} {out : Ending × Run}
      → ((run : Run) → ◌⟶*◌ setup world job start run → IsGated run)
      → Ended setup world job start out
      → IsGated out.1
  unfolding conclude complete_as
  Ended-IsGated h (concluded {last = last} r p f e) = rw e (same-IsGated refl refl (h last r))
  Ended-IsGated h (cancelled_end {last = last} r e) = rw e (same-IsGated refl refl (h last r))
  Ended-IsGated h (crashed {last = last} error left flight told r e) =
      rw e (same-IsGated refl refl (h last r))
  Ended-IsGated h (out_of_fuel {last = last} r e) = rw e (h last r)

  Course-IsGated : {out : Ending × Run} → Course setup world job out → IsGated out.1
  unfolding complete_as record_result
  Course-IsGated (refused last status s none_started unrun quiet e) =
      rw e (nothing_started none_started)
  Course-IsGated (canary_raised last error fresh told e) =
      rw e (nothing_started fresh.none_submitted)
  Course-IsGated (canary_failed last result fresh told bad e) =
      rw e (nothing_started fresh.none_submitted)
  Course-IsGated (canary_alone last result fresh told good alone e) =
      rw e (nothing_started fresh.none_submitted)
  Course-IsGated (fanned_out last result fresh told good ended) =
      Ended-IsGated (λ run moves. reached-IsGated result last run fresh good moves) ended

  -- Whatever the worker answers and whenever flags are set: no device but the canary is started
  -- unless the canary's result, which stays recorded, is a success; and those that are started are,
  -- in order and each once, a first part of the targets other than the canary.
  pub canary_first : (polls fuel : ℕ) → IsGated (run_job setup world job polls fuel).1
  canary_first polls fuel = Course-IsGated (run_job-Course setup world job polls fuel)
