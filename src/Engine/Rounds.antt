-- ===== src/Engine/Rounds.antt =====
-- The scheduling loop of `run_job`.
use nw_edit.Prelude.{
  ℕ, zero, suc, Bool, true, false, ◌&&◌, Option, none, some, List, [], ◌∷◌, ◌==◌, is_empty,
  if◌then◌else◌,
}
use nw_edit.Domain.Models.{JobStatus, completed, failed, cancelled, JobRunSummary}
use nw_edit.Engine.Env.{returned, raised, Thread, Setup, tick, cancel_seen, pause_seen}
use nw_edit.Engine.Run.{
  Job, Flight, World, Run, Ending, has_failure, complete_as, record_result, flight_outcome, fill,
  take_out, failure, exhausted,
}

module _ (setup : Setup) (world : World) (job : Job) where
  -- The `for` loop over the futures that `wait` has reported, with the list of those in flight.
  -- `none` goes on with the outer loop.
  unfoldable pub settle : List ℕ → List Flight → Run → Option Ending × Run
  unfolding take_out record_result complete_as flight_outcome
  settle [] flights run = (none, record run { in_flight = flights })
  settle (place ∷ places) [] run = (none, record run { in_flight = [] })
  settle (place ∷ places) (flight ∷ flights) run =
      let (taken, left) = take_out place flight flights in
      elim (flight_outcome setup world job taken).0 [
        | raised e ↦ (some (failure e), record run { in_flight = left })
        | returned result ↦
            let run' = record_result setup world job taken.device result run in
            elim (result.status == "cancelled") [
              | true ↦
                  let (ending, run'') =
                    complete_as setup world job cancelled (record run' { in_flight = left }) in
                  (some ending, run'')
              | false ↦ settle places left run'
            ]
      ]

  -- `while control and pause set and not cancel set: sleep`, for at most so many polls.
  unfoldable pub wait_while_paused : ℕ → Thread → Option Thread
  wait_while_paused zero thread = none
  wait_while_paused (suc polls) thread = elim (pause_seen setup world.main thread) [
    | false ↦ some (tick thread)
    | true ↦ elim (cancel_seen setup world.main (tick thread)) [
      | true ↦ some (tick (tick thread))
      | false ↦ wait_while_paused polls (tick (tick thread))
    ]
  ]

  abbrev pub final_status : Bool → JobRunSummary → JobStatus
  final_status is_cancelled summary =
      if is_cancelled then cancelled else if has_failure summary then failed else completed

  -- After the loop: the status from the cancel flag and the results.
  unfoldable pub conclude : Run → Ending × Run
  unfolding complete_as
  conclude run =
      complete_as setup world job (final_status (cancel_seen setup world.main run.main) run.summary)
        (record run { main = tick run.main })

  -- Goes on with the loop, or ends with it.
  abbrev pub carry : (Run → Ending × Run) → Option Ending × Run → Ending × Run
  carry rest (none, run) = rest run
  carry rest (some ending, run) = (ending, run)

  -- The end of a round, `wait` and the futures that are done, or `break`; `rest` is the loop.
  unfoldable pub collect : (Run → Ending × Run) → Run → Ending × Run
  unfolding settle conclude
  collect rest run = elim (is_empty run.in_flight) [
    | true ↦ conclude run
    | false ↦
        let (first, more) = world.done run.main.clock in
        carry rest (settle (first ∷ more) run.in_flight (record run { main = tick run.main }))
  ]

  -- A round behind the wait for the end of a pause.
  unfoldable pub schedule : (Run → Ending × Run) → Run → Ending × Run
  unfolding complete_as fill collect
  schedule rest run = elim (cancel_seen setup world.main run.main) [
    | true ↦ complete_as setup world job cancelled (record run { main = tick run.main })
    | false ↦ collect rest (fill setup world job run.pending (record run { main = tick run.main }))
  ]

  -- The outer `while pending_devices or in_flight`: at most `fuel` rounds with at most `polls`
  -- polls of the pause flag each.
  unfoldable pub rounds : (polls fuel : ℕ) → Run → Ending × Run
  unfolding wait_while_paused conclude schedule
  rounds polls zero run = (exhausted, run)
  rounds polls (suc fuel) run = elim (is_empty run.pending && is_empty run.in_flight) [
    | true ↦ conclude run
    | false ↦ elim (wait_while_paused polls run.main) [
      | none ↦ (exhausted, run)
      | some thread ↦ schedule (λ run'. rounds polls fuel run') (record run { main = thread })
    ]
  ]
