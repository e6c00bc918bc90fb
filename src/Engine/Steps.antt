-- ===== src/Engine/Steps.antt =====
-- The moves of the scheduling loop of `run_job` as a step relation, and the loop as a sequence of
-- such moves. What holds of every run is proved by induction on these sequences.
pub mod Loop
pub mod Filling
use nw_edit.Prelude.{
  ℕ, zero, suc, ◌+◌, ◌≤◌, String, ◌≡◌, refl, sym, ap, subst, ◌⊎◌, inl, inr, Bool, true, false, ◌&&◌,
  Option, none, some, List, [], ◌∷◌, arith, leb, length, is_empty, ◌==◌, Bool-cases, Option-cases,
  max,
}
use nw_edit.Result.{Error}
use nw_edit.Domain.Models.{JobStatus, cancelled, DeviceTarget, DeviceExecutionResult}
use nw_edit.Engine.Env.{
  Reply, returned, raised, Reply-cases, Env, Thread, Setup, tick, cancel_seen, pause_seen, emit,
}
use nw_edit.Engine.Run.{
  Job, Flight, World, Run, Ending, failure, exhausted, has_failure, limit, complete_as,
  record_result, flight_outcome, launch, fill, take_out,
}
use nw_edit.Engine.Rounds.{settle, wait_while_paused, conclude, rounds}
use nw_edit.Engine.Steps.Filling.{full, stopped, dropped, started, fill-Turn}

module _ (setup : Setup) (world : World) (job : Job) where
  -- One move, from `run` to `next`.
  pub data Step (run : Run) (next : Run) : Type 0 where
    -- an observation that changes nothing
    observe :
        (clock : ℕ)
        → run.main.clock ≤ clock
        → next ≡ record run { main = record { clock = clock; events = run.main.events } }
        → Step run next
    -- a device is started: there is room, no failure forbids it, and the look at the cancel flag
    -- just before saw it clear
    begin :
        (device : DeviceTarget) (rest : List DeviceTarget)
        → run.pending ≡ device ∷ rest
        → leb (limit setup world job) (length run.in_flight) ≡ false
        → (job.config.stop_on_error && has_failure run.summary) ≡ false
        → (look : ℕ) → look + 1 ≡ run.main.clock
        → (setup.control && world.main.cancel look) ≡ false
        → next ≡ record (launch setup world job device run) { pending = rest }
        → Step run next
    -- what is pending is dropped because of a failure
    give_up :
        (job.config.stop_on_error && has_failure run.summary) ≡ true
        → next ≡ record run { pending = [] }
        → Step run next
    -- what is pending is dropped because the cancel flag was seen set
    drop_cancelled :
        cancel_seen setup world.main run.main ≡ true
        → next ≡ record run { pending = []; main = tick run.main }
        → Step run next
    -- the result of a future that is done is recorded
    land :
        (place : ℕ) (flight : Flight) (flights : List Flight) (result : DeviceExecutionResult)
        → run.in_flight ≡ flight ∷ flights
        → (flight_outcome setup world job (take_out place flight flights).0).0 ≡ returned result
        → next
          ≡ record (record_result setup world job
              (take_out place flight flights).0.device
              result
              run) { in_flight = (take_out place flight flights).1 }
        → Step run next

  infix 40 ◌⟶*◌
  pub data ◌⟶*◌ (start : Run) : Run → Type 0 where
    here : start ⟶* start
    next : {run run' : Run} → start ⟶* run → Step run run' → start ⟶* run'

  pub ⟶*-trans : {run run' run'' : Run} → run ⟶* run' → run' ⟶* run'' → run ⟶* run''
  ⟶*-trans r here = r
  ⟶*-trans r (next s t) = next (⟶*-trans r s) t

  ticked : (run : Run) → Step run (record run { main = tick run.main })
  ticked run = observe (run.main.clock + 1) (omega arith) refl

  -- The inner loop is a sequence of moves, from the run whose pending devices are those left.
  pub fill-⟶* :
      (devices : List DeviceTarget) (run : Run)
      → record run { pending = devices } ⟶* fill setup world job devices run
  unfolding fill launch
  fill-⟶* [] run = here
  fill-⟶* (device ∷ rest) run = elim (fill-Turn setup world job device rest run) [
    | full no_room e ↦ rw e here
    | stopped bad e ↦ rw e (next here (give_up bad refl))
    | dropped seen e ↦ rw e (next here (drop_cancelled seen refl))
    | started room good clear e ↦
        let start : Run = record run { pending = device ∷ rest } in
        let now : Run = record run { main = tick run.main } in
        rw e (
          ⟶*-trans
            (next (next here (ticked start))
              (begin device rest refl room good run.main.clock refl clear refl))
            (fill-⟶* rest (launch setup world job device now)))
  ]

  -- The outcome of a round's last part, the futures that are done.
  pub data Settled (start : Run) (out : Option Ending × Run) : Type 0 where
    go_on : {last : Run} → start ⟶* last → out ≡ (none, last) → Settled start out
    stop :
        {last : Run}
        → start ⟶* last
        → out ≡ (
          some (complete_as setup world job cancelled last).0,
          (complete_as setup world job cancelled last).1,
        )
        → Settled start out
    crash :
        {last : Run} (error : Error) (left : List Flight) (flight : Flight)
        → (flight_outcome setup world job flight).0 ≡ raised error
        → start ⟶* last
        → out ≡ (some (failure error), record last { in_flight = left })
        → Settled start out

  before_Settled :
      {start middle : Run} {out : Option Ending × Run}
      → start ⟶* middle
      → Settled middle out
      → Settled start out
  before_Settled r (go_on s e) = go_on (⟶*-trans r s) e
  before_Settled r (stop s e) = stop (⟶*-trans r s) e
  before_Settled r (crash error left flight told s e) =
      crash error left flight told (⟶*-trans r s) e

  pub settle-Settled :
      (places : List ℕ) (flights : List Flight) (run : Run)
      → Settled (record run { in_flight = flights }) (settle setup world job places flights run)
  unfolding settle
  settle-Settled [] flights run = go_on here refl
  settle-Settled (place ∷ places) [] run = go_on here refl
  settle-Settled (place ∷ places) (flight ∷ flights) run =
      elim (Reply-cases (flight_outcome setup world job (take_out place flight flights).0).0) [
        | inr (error, e) ↦ rw e (
            let (taken, left) = take_out place flight flights in crash error left taken e here refl)
        | inl (result, e) ↦
            let landed = next here (land place flight flights result refl e refl) in
            rw e (elim (Bool-cases (result.status == "cancelled")) [
              | inl c ↦ rw c (stop landed refl)
              | inr c ↦ rw c (before_Settled landed (settle-Settled places _ _))
            ])
      ]
