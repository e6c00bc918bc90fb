-- ===== src/Engine/Scheduling/Coverage.antt =====
-- No target is forgotten: it is pending, in flight or recorded, unless what was pending has been
-- dropped, for a failure or for a cancellation.
use nw_edit.Prelude.{
  ℕ, ◌≤◌, ◌<◌, String, ◌≡◌, ap, ◌⊎◌, inl, inr, true, false, ◌&&◌, Option, some, List, [], ◌∷◌,
  arith, ◌==◌, eq_iff, Bool-cases, any,
}
use nw_edit.Dict
use nw_edit.Domain.Models.{DeviceTarget, target_key, DeviceExecutionResult}
use nw_edit.Engine.Env.{Env, Thread, Setup, emit}
use nw_edit.Engine.Run.{Job, World, Run, is_failure, has_failure, launch, record_result, take_out}
use nw_edit.Engine.Steps.{Step, observe, begin, give_up, drop_cancelled, land, ◌⟶*◌, here, next}
use nw_edit.Engine.Scheduling.Distinct.{
  in_devices, in_flights, in_results, in_flights-append, in_flights-take_out, in_results-put, tally,
  IsDistinct, Step-IsDistinct, Step-has_failure, land_new,
}

-- An event is published at the thread's time, which then goes on.
clock-emit :
    (setup : Setup) (env : Env) (thread : Thread) (event_type job_id : String)
    (device status message : Option String)
    → thread.clock ≤ (emit setup env thread event_type job_id device status message).clock
unfolding emit
clock-emit setup env thread event_type job_id device status message = ground arith

module _ (setup : Setup) (world : World) (job : Job) where
  -- The cancel flag was seen set before now.
  abbrev pub WasCancelled : Run → Type 0
  WasCancelled run =
      (clock : ℕ) × (clock < run.main.clock) × ((setup.control && world.main.cancel clock) ≡ true)

  pub record Covers (all : List DeviceTarget) (run : Run) : Type 0 where
    pub distinct : IsDistinct run
    pub tracked :
        ((k : String) → 1 ≤ in_devices k all → 1 ≤ tally k run)
        ⊎ ((has_failure run.summary ≡ true) ⊎ WasCancelled run)

  pub clock-Step :
      {run after : Run} → Step setup world job run after → run.main.clock ≤ after.main.clock
  unfolding launch record_result
  clock-Step (observe clock later e) = rw e later
  clock-Step {run} (begin device rest p room good look last clear e) =
      rw e (clock-emit setup world.main run.main _ _ _ _ _)
  clock-Step (give_up bad e) = rw e (omega arith)
  clock-Step (drop_cancelled seen e) = rw e (omega arith)
  clock-Step {run} (land place flight flights result f o e) =
      rw e (clock-emit setup world.main run.main _ _ _ _ _)

  -- The keys that are counted stay counted, unless what is pending is dropped.
  Step-tracked :
      {run after : Run}
      → Step setup world job run after
      → IsDistinct run
      → ((k : String) → 1 ≤ tally k run → 1 ≤ tally k after)
        ⊎ ((has_failure run.summary ≡ true) ⊎ WasCancelled after)
  unfolding launch record_result in_devices in_flights
  Step-tracked (observe clock later e) d = inl (λ k h. rw e h)
  Step-tracked (begin device rest p room good look last clear e) d =
      inl (λ k h. rw e (rw in_flights-append (omega (arith, ap (in_devices k) p))))
  Step-tracked (give_up bad e) d = inr (inl (ground arith))
  Step-tracked {run} (drop_cancelled seen e) d =
      inr (inr (run.main.clock, rw e (omega arith), seen))
  Step-tracked {run} (land place flight flights result f o e) d = inl (λ k h. rw e (
      rw in_results-put (
        ground (
          arith,
          land_new setup world job place flight flights d f,
          ap (in_flights k) f,
          in_flights-take_out k place flight flights,
          eq_iff (target_key (take_out place flight flights).0.device) k,
        ))))

  later-WasCancelled :
      (run after : Run) → run.main.clock ≤ after.main.clock → WasCancelled run → WasCancelled after
  later-WasCancelled run after later (clock, before, seen) = (clock, omega arith, seen)

  module _ (all : List DeviceTarget) where
    Step-Covers :
        {run after : Run} → Step setup world job run after → Covers all run → Covers all after
    Step-Covers {run} {after} s h = record {
      distinct = Step-IsDistinct setup world job s h.distinct;
      tracked = elim h.tracked [
        | inl counted ↦ elim (Step-tracked s h.distinct) [
          | inl kept ↦ inl (λ k target. kept k (counted k target))
          | inr (inl bad) ↦ inr (inl (Step-has_failure setup world job s h.distinct bad))
          | inr (inr was) ↦ inr (inr was)
        ]
        | inr (inl bad) ↦ inr (inl (Step-has_failure setup world job s h.distinct bad))
        | inr (inr was) ↦ inr (inr (later-WasCancelled run after (clock-Step s) was))
      ];
    }

    pub moves-Covers :
        {start run : Run} → Covers all start → ◌⟶*◌ setup world job start run → Covers all run
    moves-Covers h here = h
    moves-Covers h (next r s) = Step-Covers s (moves-Covers h r)

    -- Nothing left to do, no failure and no cancellation seen: every target has a result.
    pub Covers-recorded :
        {run : Run}
        → Covers all run
        → run.pending ≡ []
        → run.in_flight ≡ []
        → has_failure run.summary ≡ false
        → ¬ WasCancelled run
        → (k : String) → 1 ≤ in_devices k all
        → 1 ≤ in_results k run.summary.device_results
    unfolding in_devices in_flights
    Covers-recorded {run} h p f good quiet k target = elim h.tracked [
      | inl counted ↦ omega (arith, counted k target, ap (in_devices k) p, ap (in_flights k) f)
      | inr (inl bad) ↦ cc
      | inr (inr was) ↦ absurd (quiet was)
    ]

-- A key that occurs among results of which none is a failure has a successful result.
pub success_of-in_results :
    (k : String) (results : Dict.Dict DeviceExecutionResult)
    → any is_failure (Dict.values results) ≡ false
    → 1 ≤ in_results k results
    → (result : DeviceExecutionResult) × (Dict.get results k ≡ some result)
      × (result.status ≡ "success")
unfolding in_results Dict.get
success_of-in_results k [] good h = absurd (omega arith)
success_of-in_results k ((j, r) ∷ results) good h = elim (Bool-cases (j == k)) [
  | inl same ↦ (r, rw same, ground (arith, eq_iff r.status "success"))
  | inr other ↦ rw (other, Dict.get) (success_of-in_results k results (ground arith) (ground arith))
]
