-- ===== src/Engine/Steps/Loop.antt =====
-- The scheduling loop, with any fuel, as a sequence of moves and one of four endings.
use nw_edit.Prelude.{
  ℕ, zero, suc, ◌+◌, ◌≤◌, ◌≡◌, refl, sym, subst, ◌≢◌, inl, inr, true, ◌&&◌, Option, some, List, [],
  ◌∷◌, arith, leb, length, is_empty, is_empty-eq-true, Bool-cases, Option-cases,
}
use nw_edit.Result.{Error}
use nw_edit.Domain.Models.{cancelled, DeviceTarget}
use nw_edit.Engine.Env.{raised, Thread, Setup, tick, cancel_seen}
use nw_edit.Engine.Run.{
  Job, Flight, World, Run, Ending, failure, exhausted, limit, complete_as, flight_outcome, fill,
}
use nw_edit.Engine.Rounds.{wait_while_paused, conclude, carry, collect, schedule, rounds}
use nw_edit.Engine.Steps.{
  Step, observe, ◌⟶*◌, here, next, ⟶*-trans, fill-⟶*, Settled, go_on, stop, crash, settle-Settled,
}
use nw_edit.Engine.Steps.Filling.{full, stopped, dropped, started, fill-Turn}

module _ (setup : Setup) (world : World) (job : Job) where
  abbrev Moves : Run → Run → Type 0
  Moves = ◌⟶*◌ setup world job

  -- How the loop ends: with nothing left to do, by cancellation, by an exception of a worker, or
  -- out of fuel.
  pub data Ended (start : Run) (out : Ending × Run) : Type 0 where
    concluded :
        {last : Run}
        → Moves start last
        → last.pending ≡ []
        → last.in_flight ≡ []
        → out ≡ conclude setup world job last
        → Ended start out
    cancelled_end :
        {last : Run}
        → Moves start last
        → out ≡ complete_as setup world job cancelled last
        → Ended start out
    crashed :
        {last : Run} (error : Error) (left : List Flight) (flight : Flight)
        → (flight_outcome setup world job flight).0 ≡ raised error
        → Moves start last
        → out ≡ (failure error, record last { in_flight = left })
        → Ended start out
    out_of_fuel : {last : Run} → Moves start last → out ≡ (exhausted, last) → Ended start out

  before_Ended :
      {start middle : Run} {out : Ending × Run}
      → Moves start middle
      → Ended middle out
      → Ended start out
  before_Ended r (concluded s p f e) = concluded (⟶*-trans setup world job r s) p f e
  before_Ended r (cancelled_end s e) = cancelled_end (⟶*-trans setup world job r s) e
  before_Ended r (crashed error left flight told s e) =
      crashed error left flight told (⟶*-trans setup world job r s) e
  before_Ended r (out_of_fuel s e) = out_of_fuel (⟶*-trans setup world job r s) e

  -- Waiting only lets time pass.
  clock-wait_while_paused :
      (polls : ℕ) (thread after : Thread)
      → wait_while_paused setup world job polls thread ≡ some after
      → (thread.clock ≤ after.clock) × (after.events ≡ thread.events)
  unfolding wait_while_paused
  clock-wait_while_paused zero thread after h = cc
  clock-wait_while_paused (suc polls) thread after h =
      ground (arith, clock-wait_while_paused polls (tick (tick thread)) after)

  full_not_empty :
      (flights : List Flight) → leb (limit setup world job) (length flights) ≡ true → flights ≢ []
  full_not_empty [] no_room e = ground arith
  full_not_empty (flight ∷ flights) no_room e = cc

  &&-is_empty {ℓ κ} :
      {A : Type ℓ} {B : Type κ} (xs : List A) (ys : List B)
      → (is_empty xs && is_empty ys) ≡ true
      → (xs ≡ []) × (ys ≡ [])
  &&-is_empty [] [] h = (refl, refl)
  &&-is_empty [] (y ∷ ys) h = cc
  &&-is_empty (x ∷ xs) ys h = cc

  -- Devices stay pending only while something is in flight: the limit is at least 1.
  pending-fill :
      (devices : List DeviceTarget) (run : Run)
      → (fill setup world job devices run).in_flight ≡ []
      → (fill setup world job devices run).pending ≡ []
  unfolding fill
  pending-fill [] run h = refl
  pending-fill (device ∷ rest) run h = elim (fill-Turn setup world job device rest run) [
    | full no_room e ↦ absurd (full_not_empty run.in_flight no_room (rw e at h))
    | stopped bad e ↦ rw e refl
    | dropped seen e ↦ rw e refl
    | started room good clear e ↦ rw e (pending-fill rest _ (rw e at h))
  ]

  abbrev now : Run → Run
  now run = record run { main = tick run.main }

  ticked : (run : Run) → Step setup world job run (now run)
  ticked run = observe (run.main.clock + 1) (omega arith) refl

  observed :
      (run : Run) (after : Thread)
      → run.main.clock ≤ after.clock
      → after.events ≡ run.main.events
      → Step setup world job run (record run { main = after })
  observed run after later same =
      observe after.clock later
        (λ i. record run { main = record { clock = after.clock; events = same i } })

  module _ (rest : Run → Ending × Run) (rest-Ended : (run : Run) → Ended run (rest run)) where
    Settled-Ended :
        {start : Run} {out : Option Ending × Run}
        → Settled setup world job start out
        → Ended start (carry setup world job rest out)
    Settled-Ended {start} (go_on {last = last} s e) =
        subst (λ o. Ended start (carry setup world job rest o)) (sym e)
          (before_Ended s (rest-Ended last))
    Settled-Ended {start} (stop s e) =
        subst (λ o. Ended start (carry setup world job rest o)) (sym e) (cancelled_end s refl)
    Settled-Ended {start} (crash error left flight told s e) =
        subst (λ o. Ended start (carry setup world job rest o)) (sym e)
          (crashed error left flight told s refl)

    collect-Ended :
        (run : Run)
        → (run.in_flight ≡ [] → run.pending ≡ [])
        → Ended run (collect setup world job rest run)
    unfolding collect
    collect-Ended run drained = elim (Bool-cases (is_empty run.in_flight)) [
      | inl idle ↦
          let e = is_empty-eq-true run.in_flight idle in
          rw (idle, collect) (concluded here (drained e) e refl)
      | inr busy ↦
          rw (busy, collect)
            (let (first, more) = world.done run.main.clock in
              before_Ended (next here (ticked run)) (
                Settled-Ended
                  (settle-Settled setup world job (first ∷ more) run.in_flight (now run))))
    ]

    schedule-Ended : (run : Run) → Ended run (schedule setup world job rest run)
    unfolding schedule
    schedule-Ended run = elim (Bool-cases (cancel_seen setup world.main run.main)) [
      | inl seen ↦
          rw (seen, schedule) (cancelled_end {last = now run} (next here (ticked run)) refl)
      | inr clear ↦
          rw (clear, schedule)
            (before_Ended (next here (ticked run)) (
              before_Ended (fill-⟶* setup world job run.pending (now run)) (
                collect-Ended (fill setup world job run.pending (now run))
                  (pending-fill run.pending (now run)))))
    ]

  -- The loop is a sequence of moves and an ending, whatever the surroundings do.
  pub rounds-Ended :
      (polls fuel : ℕ) (run : Run) → Ended run (rounds setup world job polls fuel run)
  unfolding rounds
  rounds-Ended polls zero run = out_of_fuel here refl
  rounds-Ended polls (suc fuel) run =
      elim (Bool-cases (is_empty run.pending && is_empty run.in_flight)) [
        | inl idle ↦
            rw (idle, rounds)
              (let (p, f) = &&-is_empty run.pending run.in_flight idle in concluded here p f refl)
        | inr busy ↦
            rw (busy, rounds)
              (elim (Option-cases (wait_while_paused setup world job polls run.main)) [
                | inl stuck ↦ rw stuck (out_of_fuel here refl)
                | inr (thread, e) ↦ rw e (
                    let (later, same) = clock-wait_while_paused polls run.main thread e in
                    before_Ended (next here (observed run thread later same)) (
                      schedule-Ended (rounds setup world job polls fuel) (rounds-Ended polls fuel)
                        _))
              ])
      ]
