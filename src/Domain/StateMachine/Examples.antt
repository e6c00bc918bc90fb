-- ===== src/Domain/StateMachine/Examples.antt =====
-- A job's life: queued, running, paused, running, completed.
use nw_edit.Prelude.{◌≡◌, false, refl, inl}
use nw_edit.Domain.Models.{queued, running, paused, completed, start, pause, resume, complete}
use nw_edit.Domain.StateMachine.{can_transition, transition}
use nw_edit.Domain.StateMachine.Lifecycle.{
  ◌⟶◌, step, ◌⟶*◌, here, next, Leaves, start_once, finished_ran,
}

started : queued ⟶ running
unfolding transition
started = step start refl

suspended : running ⟶ paused
unfolding transition
suspended = step pause refl

resumed : paused ⟶ running
unfolding transition
resumed = step resume refl

ended : running ⟶ completed
unfolding transition
ended = step complete refl

start_once_example : can_transition paused start ≡ false
start_once_example = start_once started (next here suspended)

abbrev life : queued ⟶* completed
life = next (next (next (next here started) suspended) resumed) ended

finished_ran_example : Leaves running life
finished_ran_example = finished_ran life (inl refl)
