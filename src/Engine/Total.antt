-- ===== src/Engine/Total.antt =====
-- The loop ends: with more fuel than there are devices pending and in flight, and pauses that come
-- to an end.
use nw_edit.Prelude.{
  ℕ, zero, suc, ◌+◌, ◌≤◌, ◌<◌, ◌≡◌, refl, ◌≢◌, ◌⊎◌, inl, inr, true, false, ◌&&◌, none, List, [],
  ◌∷◌, arith, ◌==◌, length, length-append, is_empty, Bool-cases, Option-cases,
}
use nw_edit.Domain.Models.{DeviceTarget}
use nw_edit.Engine.Env.{Reply-cases, Env, Thread, Setup, tick, cancel_seen}
use nw_edit.Engine.Run.{
  Job, Flight, World, Run, Ending, exhausted, flight_outcome, launch, fill, take_out,
}
use nw_edit.Engine.Rounds.{settle, wait_while_paused, conclude, carry, collect, schedule, rounds}
use nw_edit.Engine.Steps.Filling.{full, stopped, dropped, started, fill-Turn}
use nw_edit.Engine.Scheduling.Bounds.{length-take_out}

-- One of the next `polls` polls sees the pause flag clear or the cancel flag set.
abbrev pub EndsWithin : ℕ → Env → ℕ → Type 0
EndsWithin zero env clock = ⊥
EndsWithin (suc polls) env clock =
    (env.pause clock ≡ false)
    ⊎ ((env.cancel (clock + 1) ≡ true) ⊎ EndsWithin polls env (clock + 1 + 1))

abbrev pub PausesEnd : ℕ → Env → Type 0
PausesEnd polls env = (clock : ℕ) → EndsWithin polls env clock

module _ (setup : Setup) (world : World) (job : Job) where
  wait-total :
      (polls : ℕ) (thread : Thread)
      → EndsWithin polls world.main thread.clock
      → wait_while_paused setup world job polls thread ≢ none
  unfolding wait_while_paused
  wait-total zero thread h = absurd h
  wait-total (suc polls) thread (inl off) = ground arith
  wait-total (suc polls) thread (inr (inl on)) = ground arith
  wait-total (suc polls) thread (inr (inr later)) =
      ground (arith, wait-total polls (tick (tick thread)) later)

  length-launch :
      (device : DeviceTarget) (run : Run)
      → length (launch setup world job device (record run { main = tick run.main })).in_flight
        ≡ length run.in_flight + 1
  unfolding launch
  length-launch device run = rw length-append (omega arith)

  measure-fill :
      (devices : List DeviceTarget) (run : Run)
      → length (fill setup world job devices run).pending
          + length (fill setup world job devices run).in_flight
        ≤ length devices + length run.in_flight
  unfolding fill
  measure-fill [] run = omega arith
  measure-fill (device ∷ rest) run = elim (fill-Turn setup world job device rest run) [
    | full no_room e ↦ rw e (omega arith)
    | stopped bad e ↦ rw e (omega arith)
    | dropped seen e ↦ rw e (omega arith)
    | started room good clear e ↦
        let next = launch setup world job device (record run { main = tick run.main }) in
        rw e (omega (arith, measure-fill rest next, length-launch device run))
  ]

  -- What is left to do.
  abbrev pub workload : Run → ℕ
  workload run = length run.pending + length run.in_flight

  -- With `rest` good for every smaller workload, the futures that are done leave a good end.
  module _ (rest : Run → Ending × Run) (most : ℕ)
      (rest-total : (run : Run) → workload run < most → (rest run).0 ≢ exhausted) where
    settle-total :
        (places : List ℕ) (flights : List Flight) (run : Run)
        → length run.pending + length flights < most
        → (carry setup world job rest (settle setup world job places flights run)).0 ≢ exhausted
    unfolding settle
    settle-total [] flights run h = rest-total (record run { in_flight = flights }) h
    settle-total (place ∷ places) [] run h = rest-total (record run { in_flight = [] }) h
    settle-total (place ∷ places) (flight ∷ flights) run h =
        elim (Reply-cases (flight_outcome setup world job (take_out place flight flights).0).0) [
          | inr (error, e) ↦ rw e (λ out. cc)
          | inl (result, e) ↦ rw e (elim (Bool-cases (result.status == "cancelled")) [
            | inl c ↦ rw c (λ out. cc)
            | inr c ↦
                rw c (settle-total places _ _ (omega (arith, length-take_out place flight flights)))
          ])
        ]

    -- The first future that is done makes the workload smaller.
    settle-total_first :
        (place : ℕ) (places : List ℕ) (flights : List Flight) (run : Run)
        → flights ≢ []
        → length run.pending + length flights ≤ most
        → (carry setup world job rest (settle setup world job (place ∷ places) flights run)).0
          ≢ exhausted
    unfolding settle
    settle-total_first place places [] run some_flight h = absurd (some_flight refl)
    settle-total_first place places (flight ∷ flights) run some_flight h =
        elim (Reply-cases (flight_outcome setup world job (take_out place flight flights).0).0) [
          | inr (error, e) ↦ rw e (λ out. cc)
          | inl (result, e) ↦ rw e (elim (Bool-cases (result.status == "cancelled")) [
            | inl c ↦ rw c (λ out. cc)
            | inr c ↦
                rw c (settle-total places _ _ (omega (arith, length-take_out place flight flights)))
          ])
        ]

    schedule-total :
        (run : Run) → workload run ≤ most → (schedule setup world job rest run).0 ≢ exhausted
    unfolding schedule collect conclude
    schedule-total run h = elim (Bool-cases (cancel_seen setup world.main run.main)) [
      | inl seen ↦ rw (seen, schedule) (λ out. cc)
      | inr clear ↦
          rw (clear, schedule)
            (let now : Run = record run { main = tick run.main } in
              let filled = fill setup world job run.pending now in
              elim (Bool-cases (is_empty filled.in_flight)) [
                | inl idle ↦ rw (idle, collect) (λ out. cc)
                | inr busy ↦
                    rw (busy, collect)
                      (settle-total_first _ _ filled.in_flight
                        (record filled { main = tick filled.main }) (λ e. cc (rw e at busy))
                        (omega (arith, measure-fill run.pending now)))
              ])
    ]

  -- The loop does not run out of fuel when there is more of it than devices pending and in flight,
  -- and every pause ends within `polls` polls, or is cut short by a cancellation.
  pub rounds-total :
      (polls fuel : ℕ) (run : Run)
      → PausesEnd polls world.main
      → workload run < fuel
      → (rounds setup world job polls fuel run).0 ≢ exhausted
  unfolding rounds conclude
  rounds-total polls zero run pauses h = absurd (omega arith)
  rounds-total polls (suc fuel) run pauses h =
      elim (Bool-cases (is_empty run.pending && is_empty run.in_flight)) [
        | inl idle ↦ rw (idle, rounds) (λ out. cc)
        | inr busy ↦
            rw (busy, rounds)
              (elim (Option-cases (wait_while_paused setup world job polls run.main)) [
                | inl stuck ↦ absurd (wait-total polls run.main (pauses run.main.clock) stuck)
                | inr (thread, e) ↦ rw e (
                    schedule-total (rounds setup world job polls fuel) fuel
                      (λ next less. rounds-total polls fuel next pauses less)
                      (record run { main = thread }) (omega arith))
              ])
      ]
