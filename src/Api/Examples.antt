-- ===== src/Api/Examples.antt =====
-- One job in the application, from its creation on.
use nw_edit.Prelude.{String, ◌≡◌, refl, none, some, [], ◌∷◌}
use nw_edit.Result.{ok}
use nw_edit.Dict
use nw_edit.Domain.Models.{paused, completed, JobRecord, JobRunSummary}
use nw_edit.Stores.JobStore
use nw_edit.Stores.RunStore
use nw_edit.Stores.ControlStore
use nw_edit.Api.State.{App, new_app}
use nw_edit.Api.Execution.{reset_run_control, finish_run}
use nw_edit.Api.Execution.Finish.{status_of, status_after, finish_run-status}
use nw_edit.Api.Control.{pause_job, resume_job, cancel_job}
use nw_edit.Api.Control.Endpoints.{IsSound, IsStart, control-IsSound, reset_run_control-IsSound}
use nw_edit.Api.Jobs.{create_job, first_active, newest_first}
use nw_edit.Api.Jobs.Requests.{◌⟿*◌, here, onward, creates, starts, pauses, IsSingle, one_active}

abbrev made : App
made = (create_job "j1" "now" "job" "me" [] new_app).1

abbrev begun : App
begun = (reset_run_control "then" "j1" made).1

abbrev suspended : App
suspended = (pause_job "later" "j1" begun).1

made-reached : new_app ⟿* made
made-reached = onward here (creates "j1" "now" "job" "me" [])

one_active_example : IsSingle suspended.jobs
one_active_example =
    one_active (onward (onward made-reached (starts "then" "j1")) (pauses "later" "j1"))

no_control : (k : String) → ControlStore.get made.controls k ≡ none
unfolding create_job first_active newest_first JobStore.list ControlStore.get Dict.get
no_control k = refl

made-IsSound : IsSound made
made-IsSound = (
  (one_active made-reached).stored,
  record { at = λ k job control j c. (let absent = no_control k in cc) },
)

reset_run_control-IsSound_example :
    IsStart "then" "j1" made made-IsSound (reset_run_control "then" "j1" made)
reset_run_control-IsSound_example = reset_run_control-IsSound "then" "j1" made made-IsSound

begun-IsSound : IsSound begun
begun-IsSound = reset_run_control-IsSound_example.0

control-IsSound_example :
    IsSound (pause_job "later" "j1" begun).1
    × IsSound (resume_job "later" "j1" begun).1
    × IsSound (cancel_job "later" "j1" begun).1
control-IsSound_example = control-IsSound "later" "j1" begun begun-IsSound

abbrev held : JobRecord
held = record {
  job_id = "j1";
  job_name = "job";
  creator = "me";
  status = paused;
  created_at = "now";
  global_vars = [];
  started_at = some "then";
  completed_at = none;
}

abbrev holding : App
holding = record new_app { jobs = ("j1", held) ∷ [] }

held_stored : JobStore.get holding.jobs "j1" ≡ some held
unfolding JobStore.get Dict.get
held_stored = refl

abbrev done : JobRunSummary
done = record {
  job_id = "j1";
  status = completed;
  device_results = [];
  commands = [];
  verify_commands = [];
  target_device_keys = [];
}

-- The run is over, and its job stays paused.
finish_run-status_example :
    let (answer, after) = finish_run "end" "j1" done holding in
    (answer ≡ ok done)
    × (RunStore.get after.runs "j1" ≡ some done)
    × (status_of (JobStore.get after.jobs "j1") ≡ some (status_after completed paused))
finish_run-status_example = finish_run-status "end" "j1" done holding held held_stored refl
