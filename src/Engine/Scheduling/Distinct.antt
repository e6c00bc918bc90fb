-- ===== src/Engine/Scheduling/Distinct.antt =====
-- When no two target devices share a key: no result is overwritten, so that a failure stays
-- recorded and stops the starting of devices.
use nw_edit.Prelude.{
  ℕ, zero, suc, ◌+◌, ◌≤◌, String, ◌≡◌, refl, ap, Bool, true, false, ◌||◌, List, [], ◌∷◌, ◌++◌,
  arith, ◌==◌, eq_iff, any, if◌then◌else◌,
}
use nw_edit.Dict
use nw_edit.Dict.{Dict, put, get}
use nw_edit.Domain.Models.{DeviceTarget, target_key, DeviceExecutionResult}
use nw_edit.Engine.Env.{Setup}
use nw_edit.Engine.Run.{
  Job, Flight, World, Run, is_failure, has_failure, launch, record_result, take_out,
}
use nw_edit.Engine.Steps.{Step, observe, begin, give_up, drop_cancelled, land}

-- How often a key occurs: among devices, among flights, among results.
unfoldable pub in_devices : String → List DeviceTarget → ℕ
in_devices k [] = 0
in_devices k (d ∷ ds) = (if target_key d == k then 1 else 0) + in_devices k ds

unfoldable pub in_flights : String → List Flight → ℕ
in_flights k [] = 0
in_flights k (f ∷ fs) = (if target_key f.device == k then 1 else 0) + in_flights k fs

unfoldable pub in_results : String → Dict DeviceExecutionResult → ℕ
in_results k [] = 0
in_results k ((j, r) ∷ d) = (if j == k then 1 else 0) + in_results k d

pub in_flights-append :
    (k : String) (fs gs : List Flight) → in_flights k (fs ++ gs) ≡ in_flights k fs + in_flights k gs
unfolding in_flights
in_flights-append k [] gs = omega arith
in_flights-append k (f ∷ fs) gs = omega (arith, in_flights-append k fs gs)

pub in_flights-take_out :
    (k : String) (place : ℕ) (f : Flight) (fs : List Flight)
    → in_flights k (f ∷ fs)
      ≡ (if target_key (take_out place f fs).0.device == k then 1 else 0)
        + in_flights k (take_out place f fs).1
unfolding in_flights take_out
in_flights-take_out k place f [] = refl
in_flights-take_out k zero f (g ∷ fs) = refl
in_flights-take_out k (suc place) f (g ∷ fs) = omega (arith, in_flights-take_out k place g fs)

-- A write adds one occurrence of a key that was absent, and changes no number of occurrences else.
pub in_results-put :
    (k j : String) (r : DeviceExecutionResult) (d : Dict DeviceExecutionResult)
    → in_results k (put d j r) ≡ (
        if j == k
        then (if Dict.contains d j then in_results k d else suc (in_results k d))
        else in_results k d)
unfolding in_results get put
in_results-put k j r [] = ground arith
in_results-put k j r ((i, q) ∷ d) =
    ground (arith, eq_iff i j, eq_iff i k, eq_iff j k, in_results-put k j r d)

contains-in_results :
    (j : String) (d : Dict DeviceExecutionResult) → in_results j d ≡ 0 → Dict.contains d j ≡ false
unfolding in_results get
contains-in_results j [] h = refl
contains-in_results j ((i, q) ∷ d) h = ground (arith, contains-in_results j d)

-- A result for a new key is added to the others.
any-put :
    (p : DeviceExecutionResult → Bool) (j : String) (r : DeviceExecutionResult)
    (d : Dict DeviceExecutionResult)
    → Dict.contains d j ≡ false
    → any p (Dict.values (put d j r)) ≡ (any p (Dict.values d) || p r)
unfolding put get
any-put p j r [] h = ground arith
any-put p j r ((i, q) ∷ d) h = ground (arith, any-put p j r d)

-- The occurrences of a key among what is pending, in flight or recorded.
abbrev pub tally : String → Run → ℕ
tally k run =
    in_devices k run.pending + in_flights k run.in_flight + in_results k run.summary.device_results

pub record IsDistinct (run : Run) : Type 0 where
  pub once : (k : String) → tally k run ≤ 1

module _ (setup : Setup) (world : World) (job : Job) where
  -- A move loses no occurrence of a key but by dropping what is pending, and it adds none.
  pub tally-Step :
      (k : String) {run after : Run} → Step setup world job run after → tally k after ≤ tally k run
  unfolding launch record_result in_devices in_flights
  tally-Step k (observe clock later e) = rw e (omega arith)
  tally-Step k {run} (begin device rest p room good look last clear e) =
      rw e (rw (in_flights-append, p) (omega arith))
  tally-Step k (give_up bad e) = rw e (omega arith)
  tally-Step k (drop_cancelled seen e) = rw e (omega arith)
  tally-Step k {run} (land place flight flights result f o e) = rw e (
      rw in_results-put
        (ground (arith, ap (in_flights k) f, in_flights-take_out k place flight flights)))

  pub Step-IsDistinct :
      {run after : Run} → Step setup world job run after → IsDistinct run → IsDistinct after
  Step-IsDistinct s h = record { once = λ k. omega (arith, tally-Step k s, h.once k) }

  -- The device of a future that is done has no result yet.
  pub land_new :
      {run : Run} (place : ℕ) (flight : Flight) (flights : List Flight)
      → IsDistinct run
      → run.in_flight ≡ flight ∷ flights
      → let key = target_key (take_out place flight flights).0.device in
        Dict.contains run.summary.device_results key ≡ false
  land_new {run} place flight flights h f =
      let key = target_key (take_out place flight flights).0.device in
      contains-in_results key run.summary.device_results (
        ground (
          arith,
          h.once key,
          ap (in_flights key) f,
          in_flights-take_out key place flight flights,
          eq_iff key key,
        ))

  pub Step-has_failure :
      {run after : Run}
      → Step setup world job run after
      → IsDistinct run
      → has_failure run.summary ≡ true
      → has_failure after.summary ≡ true
  unfolding launch record_result
  Step-has_failure (observe clock later e) h bad = rw e bad
  Step-has_failure (begin device rest p room good look last clear e) h bad = rw e bad
  Step-has_failure (give_up _ e) h bad = rw e bad
  Step-has_failure (drop_cancelled seen e) h bad = rw e bad
  Step-has_failure {run} (land place flight flights result f o e) h bad =
      rw e (rw (any-put is_failure _ result _ (land_new place flight flights h f)) (rw bad refl))
