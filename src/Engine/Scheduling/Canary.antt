-- ===== src/Engine/Scheduling/Canary.antt =====
-- The canary's result stays as it was recorded, and a key is counted among the targets as it is
-- among the canary and the remaining devices.
use nw_edit.Prelude.{
  ◌+◌, String, ◌≡◌, ap, not, some, List, [], ◌∷◌, arith, ◌==◌, eq_iff, filter, if◌then◌else◌,
}
use nw_edit.Dict
use nw_edit.Dict.Laws.{get-put}
use nw_edit.Domain.Models.{DeviceTarget, target_key, DeviceExecutionResult}
use nw_edit.Engine.Env.{Setup}
use nw_edit.Engine.Run.{Job, World, Run, launch, record_result, take_out}
use nw_edit.Engine.RunJob.{remaining}
use nw_edit.Engine.Steps.{Step, observe, begin, give_up, drop_cancelled, land, ◌⟶*◌, here, next}
use nw_edit.Engine.Scheduling.Distinct.{
  in_devices, in_flights, in_flights-append, in_flights-take_out,
}

in_devices-filter :
    (k c : String) (devices : List DeviceTarget)
    → in_devices k (filter (λ d. not (target_key d == c)) devices)
      ≡ (if k == c then 0 else in_devices k devices)
unfolding in_devices
in_devices-filter k c [] = ground arith
in_devices-filter k c (d ∷ ds) =
    ground (
      arith,
      in_devices-filter k c ds,
      eq_iff k c,
      eq_iff (target_key d) c,
      eq_iff (target_key d) k,
    )

module _ (setup : Setup) (world : World) (job : Job) where
  -- How often a key is among the remaining devices: as among all, and never for the canary's.
  pub in_devices-remaining :
      (k : String)
      → in_devices k (remaining setup world job)
        ≡ (if k == target_key job.canary then 0 else in_devices k job.devices)
  in_devices-remaining k = in_devices-filter k (target_key job.canary) job.devices

  abbrev key : String
  key = target_key job.canary

  -- No other device with the canary's key is to come, and its result is recorded.
  pub record Settled (result : DeviceExecutionResult) (run : Run) : Type 0 where
    pub no_other : in_devices key run.pending + in_flights key run.in_flight ≡ 0
    pub recorded : Dict.get run.summary.device_results key ≡ some result

  Step-Settled :
      (result : DeviceExecutionResult) {run after : Run}
      → Step setup world job run after
      → Settled result run
      → Settled result after
  unfolding launch record_result in_devices in_flights
  Step-Settled result (observe clock later e) h =
      rw e (record { no_other = h.no_other; recorded = h.recorded })
  Step-Settled result (begin device rest p room good look last clear e) h = rw e (record {
    no_other = rw in_flights-append (omega (arith, h.no_other, ap (in_devices key) p));
    recorded = h.recorded;
  })
  Step-Settled result (give_up bad e) h =
      rw e (record { no_other = omega (arith, h.no_other); recorded = h.recorded })
  Step-Settled result (drop_cancelled seen e) h =
      rw e (record { no_other = omega (arith, h.no_other); recorded = h.recorded })
  Step-Settled result {run} (land place flight flights answer f o e) h =
      let out = take_out place flight flights in
      let counted = in_flights-take_out key place flight flights in
      rw e (record {
        no_other = ground (arith, h.no_other, ap (in_flights key) f, counted);
        recorded =
            rw get-put (ground (arith, h.no_other, h.recorded, ap (in_flights key) f, counted));
      })

  pub moves-Settled :
      (result : DeviceExecutionResult) {start run : Run}
      → ◌⟶*◌ setup world job start run
      → Settled result start
      → Settled result run
  moves-Settled result here h = h
  moves-Settled result (next r s) h = Step-Settled result s (moves-Settled result r h)
