-- ===== src/JobService/Examples.antt =====
-- The use-cases on a store with one job.
use nw_edit.Prelude.{◌≡◌, refl, none, some, [], ◌∷◌}
use nw_edit.Result.{ok}
use nw_edit.Domain.Models.{JobRecord, running}
use nw_edit.Domain.StateMachine.{transition}
use nw_edit.Stores.JobStore
use nw_edit.Stores.JobStore.{JobStore}
use nw_edit.Dict
use nw_edit.JobService.{new_job, create_job, moved_job, apply_event, event_map}
use nw_edit.JobService.Moved.{Effect, apply_event-Effect}

abbrev waiting : JobRecord
waiting = new_job "j1" "now" "job" "me" []

abbrev jobs : JobStore
jobs = ("j1", waiting) ∷ []

created : create_job "j1" "now" [] "job" "me" [] ≡ (waiting, jobs)
unfolding create_job JobStore.save Dict.put
created = refl

apply_event-Effect_example :
    Effect "later" jobs "j1" "start" (apply_event "later" jobs "j1" "start")
apply_event-Effect_example = apply_event-Effect "later" jobs "j1" "start"

abbrev started : JobRecord
started = record {
  job_id = "j1";
  job_name = "job";
  creator = "me";
  status = running;
  created_at = "now";
  global_vars = [];
  started_at = some "later";
  completed_at = none;
}

start_run : apply_event "later" jobs "j1" "start" ≡ ok (started, ("j1", started) ∷ [])
unfolding apply_event JobStore.get JobStore.save Dict.get Dict.put event_map transition moved_job
start_run = refl
