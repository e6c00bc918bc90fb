-- ===== src/Engine/Scheduling/Cancellation.antt =====
-- The scheduling loop of `run_job` after a cancellation.
use nw_edit.Prelude.{ℕ, ◌<◌, ◌≤◌, ◌≡◌, refl, ◌≢◌, ◌∙◌, ◌⊎◌, inl, inr, true, arith}
use nw_edit.Domain.Models.{cancelled}
use nw_edit.Engine.Env.{Setup}
use nw_edit.Engine.Run.{Job, World, Run, Ending, finished, record_result, complete_as}
use nw_edit.Engine.Rounds.{conclude, rounds}
use nw_edit.Engine.Steps.{Step, observe, begin, give_up, drop_cancelled, land, ◌⟶*◌, here, next}
use nw_edit.Engine.Steps.Loop.{Ended, concluded, cancelled_end, crashed, out_of_fuel, rounds-Ended}
use nw_edit.Engine.Scheduling.Coverage.{clock-Step}

module _ (setup : Setup) (world : World) (job : Job) (on : setup.control ≡ true) (set_at : ℕ)
    (stays : (look : ℕ) → set_at ≤ look → world.main.cancel look ≡ true) where
  clock-moves :
      {start run : Run} → ◌⟶*◌ setup world job start run → start.main.clock ≤ run.main.clock
  clock-moves here = omega arith
  clock-moves (next r s) = omega (arith, clock-moves r, clock-Step setup world job s)

  submitted-Step :
      {run after : Run}
      → Step setup world job run after
      → set_at < run.main.clock
      → after.submitted ≡ run.submitted
  unfolding record_result
  submitted-Step (observe clock later e) h = rw e
  submitted-Step (begin device rest p room good look last clear e) h =
      let seen = stays look (omega arith) in cc (rw (on, seen) at clear)
  submitted-Step (give_up _ e) h = rw e
  submitted-Step (drop_cancelled seen e) h = rw e
  submitted-Step (land place flight flights result f o e) h = rw e

  moves-submitted :
      {start run : Run}
      → set_at < start.main.clock
      → ◌⟶*◌ setup world job start run
      → run.submitted ≡ start.submitted
  moves-submitted h here = refl
  moves-submitted h (next r s) =
      submitted-Step s (omega (arith, clock-moves r)) ∙ moves-submitted h r

  -- Nothing more is started, and what has returned says that it was cancelled.
  abbrev IsCancelled : Run → Ending × Run → Type 0
  IsCancelled start out =
      (out.1.submitted ≡ start.submitted)
      × ((out.1.summary.status ≡ cancelled) ⊎ (out.0 ≢ finished))

  Ended-IsCancelled :
      {start : Run} {out : Ending × Run}
      → set_at < start.main.clock
      → Ended setup world job start out
      → IsCancelled start out
  unfolding conclude complete_as
  Ended-IsCancelled h (concluded {last = last} r p f e) =
      let seen = stays last.main.clock (omega (arith, clock-moves r)) in
      rw (e, on, seen) (moves-submitted h r, inl refl)
  Ended-IsCancelled h (cancelled_end r e) = rw e (moves-submitted h r, inl refl)
  Ended-IsCancelled h (crashed error left flight told r e) =
      rw e (moves-submitted h r, inr (λ ended. cc))
  Ended-IsCancelled h (out_of_fuel r e) = rw e (moves-submitted h r, inr (λ ended. cc))

  -- Once the cancel flag has been set, at a look in the past, and stays set, the scheduling loop,
  -- from whatever state, starts no further device; and if it returns, the summary's status is
  -- `cancelled`.
  pub cancel_stops :
      (polls fuel : ℕ) (start : Run)
      → set_at < start.main.clock
      → ((rounds setup world job polls fuel start).1.submitted ≡ start.submitted)
        × (((rounds setup world job polls fuel start).1.summary.status ≡ cancelled)
            ⊎ ((rounds setup world job polls fuel start).0 ≢ finished))
  cancel_stops polls fuel start h =
      Ended-IsCancelled h (rounds-Ended setup world job polls fuel start)
