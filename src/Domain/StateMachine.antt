-- ===== src/Domain/StateMachine.antt =====
-- backend_v2/app/domain/state_machine.py: the table of transitions and the two methods over it.
pub mod Lifecycle
mod Examples
use nw_edit.Prelude.{String, Bool, Option, none, some, [], ◌∷◌, is_some, join}
use nw_edit.Result.{Result, ok, err, value_error}
use nw_edit.Domain.Models.{
  JobStatus, queued, running, paused, completed, failed, cancelled, status_value, JobEvent, start,
  pause, resume, complete, fail, cancel, event_value, JobTransition,
}

-- `_transitions.get((status, event))`.
abbrev pub transitions : JobStatus → JobEvent → Option JobStatus
transitions queued start = some running
transitions queued cancel = some cancelled
transitions running pause = some paused
transitions running complete = some completed
transitions running fail = some failed
transitions running cancel = some cancelled
transitions paused resume = some running
transitions paused cancel = some cancelled
transitions _ _ = none

unfoldable pub can_transition : JobStatus → JobEvent → Bool
can_transition status event = is_some (transitions status event)

abbrev pub invalid_text : JobStatus → JobEvent → String
invalid_text status event =
    join ""
      ("Invalid transition: status=" ∷ status_value status ∷ ", event=" ∷ event_value event ∷ [])

next_of : JobStatus → JobEvent → Option JobStatus → Result JobTransition
next_of status event none = err (value_error (invalid_text status event))
next_of status event (some next) =
    ok (record { current = status; event = event; next_status = next })

unfoldable pub transition : JobStatus → JobEvent → Result JobTransition
unfolding next_of
transition status event = next_of status event (transitions status event)
