-- ===== src/Engine/Scheduling/Bounds.antt =====
-- The number of devices in flight.
use nw_edit.Prelude.{
  ℕ, zero, suc, ◌≤◌, ◌≡◌, refl, ap, List, [], ◌∷◌, arith, length, length-append, max,
}
use nw_edit.Engine.Env.{Thread, Setup}
use nw_edit.Engine.Run.{
  Job, Flight, World, Run, Ending, exhausted, limit, complete_as, launch, record_result, fill,
  take_out,
}
use nw_edit.Engine.Rounds.{conclude, rounds}
use nw_edit.Engine.Steps.{
  Step, observe, begin, give_up, drop_cancelled, land, ◌⟶*◌, here, next, fill-⟶*,
}
use nw_edit.Engine.Steps.Loop.{Ended, concluded, cancelled_end, crashed, out_of_fuel, rounds-Ended}

pub length-take_out :
    (place : ℕ) (flight : Flight) (flights : List Flight)
    → length (take_out place flight flights).1 ≡ length flights
unfolding take_out
length-take_out place flight [] = refl
length-take_out zero flight (other ∷ flights) = refl
length-take_out (suc place) flight (other ∷ flights) =
    omega (arith, length-take_out place other flights)

module _ (setup : Setup) (world : World) (job : Job) where
  Step-limit :
      {run after : Run}
      → Step setup world job run after
      → length run.in_flight ≤ limit setup world job
      → length after.in_flight ≤ limit setup world job
  unfolding launch record_result
  Step-limit (observe clock later e) h = rw e h
  Step-limit {run} (begin device rest p room good look last clear e) h =
      rw e (rw length-append (ground arith))
  Step-limit (give_up bad e) h = rw e h
  Step-limit (drop_cancelled seen e) h = rw e h
  Step-limit (land place flight flights result f o e) h =
      rw e (omega (arith, length-take_out place flight flights, ap length f))

  moves-limit :
      {start run : Run}
      → length start.in_flight ≤ limit setup world job
      → ◌⟶*◌ setup world job start run
      → length run.in_flight ≤ limit setup world job
  moves-limit h here = h
  moves-limit h (next r s) = Step-limit s (moves-limit h r)

  -- At the end of the fuel, which is at the start of a round.
  Ended-limit :
      {start : Run} {out : Ending × Run}
      → length start.in_flight ≤ limit setup world job
      → Ended setup world job start out
      → out.0 ≡ exhausted
      → length out.1.in_flight ≤ limit setup world job
  unfolding conclude complete_as
  Ended-limit h (concluded r p f e) x = cc (rw e at x)
  Ended-limit h (cancelled_end r e) x = cc (rw e at x)
  Ended-limit h (crashed error left flight told r e) x = cc
  Ended-limit h (out_of_fuel r e) x = rw e (moves-limit h r)

  -- A loop that begins with nothing in flight has, behind any number of rounds that have not ended
  -- it, and once the next round has filled the executor, at most `concurrency_limit` devices in
  -- flight, or one if the limit is 0.
  pub fill-rounds-limit :
      (polls fuel : ℕ) (start : Run) (thread : Thread)
      → start.in_flight ≡ []
      → (rounds setup world job polls fuel start).0 ≡ exhausted
      → length
          (fill setup world job
            (rounds setup world job polls fuel start).1.pending
            (record (rounds setup world job polls fuel start).1 { main = thread })).in_flight
        ≤ max 1 job.config.concurrency_limit
  fill-rounds-limit polls fuel start thread idle goes_on =
      let begun : length start.in_flight ≤ limit setup world job = rw idle (omega arith) in
      let run = (rounds setup world job polls fuel start).1 in
      moves-limit (Ended-limit begun (rounds-Ended setup world job polls fuel start) goes_on)
        (fill-⟶* setup world job run.pending (record run { main = thread }))
