-- ===== src/Engine/Scheduling/Failure.antt =====
-- `stop_on_error`: a recorded failure stops the starting of devices.
use nw_edit.Prelude.{ℕ, ◌≡◌, refl, ◌∙◌, true}
use nw_edit.Engine.Env.{Setup}
use nw_edit.Engine.Run.{Job, World, Run, Ending, has_failure, record_result, complete_as}
use nw_edit.Engine.Rounds.{conclude, rounds}
use nw_edit.Engine.Steps.{Step, observe, begin, give_up, drop_cancelled, land, ◌⟶*◌, here, next}
use nw_edit.Engine.Steps.Loop.{Ended, concluded, cancelled_end, crashed, out_of_fuel, rounds-Ended}
use nw_edit.Engine.Scheduling.Distinct.{IsDistinct, Step-IsDistinct, Step-has_failure}

module _ (setup : Setup) (world : World) (job : Job) where
  moves-IsDistinct :
      {start run : Run} → ◌⟶*◌ setup world job start run → IsDistinct start → IsDistinct run
  moves-IsDistinct here h = h
  moves-IsDistinct (next r s) h = Step-IsDistinct setup world job s (moves-IsDistinct r h)

  pub moves-has_failure :
      {start run : Run}
      → ◌⟶*◌ setup world job start run
      → IsDistinct start
      → has_failure start.summary ≡ true
      → has_failure run.summary ≡ true
  moves-has_failure here h bad = bad
  moves-has_failure (next r s) h bad =
      Step-has_failure setup world job s (moves-IsDistinct r h) (moves-has_failure r h bad)

  submitted-Step :
      {run after : Run}
      → Step setup world job run after
      → job.config.stop_on_error ≡ true
      → has_failure run.summary ≡ true
      → after.submitted ≡ run.submitted
  unfolding record_result
  submitted-Step (observe clock later e) on bad = rw e
  submitted-Step (begin device rest p room good look last clear e) on bad =
      cc (rw (on, bad) at good)
  submitted-Step (give_up _ e) on bad = rw e
  submitted-Step (drop_cancelled seen e) on bad = rw e
  submitted-Step (land place flight flights result f o e) on bad = rw e

  moves-submitted :
      {start run : Run}
      → IsDistinct start
      → job.config.stop_on_error ≡ true
      → has_failure start.summary ≡ true
      → ◌⟶*◌ setup world job start run
      → run.submitted ≡ start.submitted
  moves-submitted h on bad here = refl
  moves-submitted h on bad (next r s) =
      submitted-Step s on (moves-has_failure r h bad) ∙ moves-submitted h on bad r

  Ended-submitted :
      {start : Run} {out : Ending × Run}
      → IsDistinct start
      → job.config.stop_on_error ≡ true
      → has_failure start.summary ≡ true
      → Ended setup world job start out
      → out.1.submitted ≡ start.submitted
  unfolding conclude complete_as
  Ended-submitted h on bad (concluded r p f e) = rw e (moves-submitted h on bad r)
  Ended-submitted h on bad (cancelled_end r e) = rw e (moves-submitted h on bad r)
  Ended-submitted h on bad (crashed error left flight told r e) = rw e (moves-submitted h on bad r)
  Ended-submitted h on bad (out_of_fuel r e) = rw e (moves-submitted h on bad r)

  -- With `stop_on_error` and targets of different keys: once a result that is no success is
  -- recorded, the scheduling loop, from whatever state and however it ends, starts no further
  -- device.
  pub failure_stops :
      (polls fuel : ℕ) (start : Run)
      → IsDistinct start
      → job.config.stop_on_error ≡ true
      → has_failure start.summary ≡ true
      → (rounds setup world job polls fuel start).1.submitted ≡ start.submitted
  failure_stops polls fuel start h on bad =
      Ended-submitted h on bad (rounds-Ended setup world job polls fuel start)
