-- ===== src/Api/Wiring/Request.antt =====
-- A request that runs a job, from its preparation to its answer.
use nw_edit.Prelude.{
  ℕ, ◌≤◌, String, ◌≡◌, ap, ◌∙◌, sym, subst, true, some, List, [], ◌∷◌, or_default, arith,
}
use nw_edit.Result.{ok}
use nw_edit.Dict
use nw_edit.Domain.Models.{
  completed, JobRecord, DeviceTarget, target_key, DeviceExecutionResult, JobRunSummary,
}
use nw_edit.Stores.EventStore.{ExecutionEvent}
use nw_edit.Engine.Env.{Setup}
use nw_edit.Engine.Run.{World}
use nw_edit.Engine.Scheduling.Distinct.{in_devices}
use nw_edit.Engine.Results.Success.{CancelStays}
use nw_edit.Api.State.{App}
use nw_edit.Stores.JobStore
use nw_edit.Engine.Results.Source.{commands_for}
use nw_edit.Api.Execution.Answer.{IsReturned}
use nw_edit.Api.Preparation.{RunJobRequest, PreparedRun, prepare_run, is_target}
use nw_edit.Api.Preparation.Rendered.{rendered_for, verified_for, prepare_run-IsRendered}
use nw_edit.Api.Runs
use nw_edit.Api.Runs.{engine_job}
use nw_edit.Api.Runs.Answer.{run_job-IsAnswered}
use nw_edit.Api.Wiring.{Calls, wired}
use nw_edit.Api.Wiring.Netmiko.{IsConfigured, completed-Configured}

in_devices-is_target :
    (k : String) (devices : List DeviceTarget)
    → is_target k devices ≡ true
    → 1 ≤ in_devices k devices
unfolding is_target in_devices
in_devices-is_target k [] h = cc
in_devices-is_target k (device ∷ devices) h = ground (arith, in_devices-is_target k devices)

same_prepared : {a b : PreparedRun} → ok a ≡ ok b → a ≡ b
same_prepared e = cc

-- What a completed request has done to a device.
pub record IsDelivered (job_id : String) (payload : RunJobRequest) (app : App)
    (prepared : PreparedRun) (device : DeviceTarget) (answer : JobRunSummary) : Type 0 where
  pub job : JobRecord
  pub stored : JobStore.get app.jobs job_id ≡ some job
  pub complete : (rendered_for job payload app.devices (target_key device)).1 ≡ []
  pub result : DeviceExecutionResult
  pub recorded : Dict.get answer.device_results (target_key device) ≡ some result
  pub configured :
      IsConfigured device
        (rendered_for job payload app.devices (target_key device)).0
        (verified_for payload app.devices prepared.canary device)
        result

module _ (setup : Setup) (calls : Calls) (bare : World) (polls fuel : ℕ) (started now : String)
    (meanwhile : App → App) (published : List ExecutionEvent) where
  abbrev world : World
  world = wired "netmiko" calls bare

  returned-IsDelivered :
      (job_id : String) (payload : RunJobRequest) (app : App) (answer : JobRunSummary)
      (prepared : PreparedRun)
      → prepare_run job_id payload app.jobs app.devices ≡ ok prepared
      → IsReturned setup world (engine_job job_id payload prepared) polls fuel answer
      → answer.status ≡ completed
      → CancelStays setup bare (engine_job job_id payload prepared)
      → ((k : String) → in_devices k prepared.devices ≤ 1)
      → (device : DeviceTarget) → is_target (target_key device) prepared.devices ≡ true
      → IsDelivered job_id payload app prepared device answer
  unfolding engine_job
  returned-IsDelivered job_id payload app answer prepared p returned done stays distinct device
        target =
      let key = target_key device in
      let job = engine_job job_id payload prepared in
      let verify_commands = verified_for payload app.devices prepared.canary device in
      let (result, recorded, configured) =
        completed-Configured setup calls bare job stays distinct device
          (in_devices-is_target key prepared.devices target) polls fuel returned.ended
          (sym (ap (λ s. s.status) returned.summary) ∙ done) in
      let ready = prepare_run-IsRendered job_id payload app.jobs app.devices prepared p in
      let (rendered, complete, verified) = ready.commands device target in
      record {
        job = ready.job;
        stored = ready.stored;
        complete = complete;
        result = result;
        recorded =
            subst (λ s. Dict.get s.device_results key ≡ some result) (sym returned.summary)
              recorded;
        configured =
            subst (λ commands. IsConfigured device commands verify_commands result)
              (ap (λ found. or_default found []) rendered)
              (subst (λ verify. IsConfigured device (commands_for job key) verify result)
                (ap (λ found. or_default found []) verified) configured);
      }

  -- With the Netmiko worker, when a request to run a job is answered with the status `completed`,
  -- then for every target of the run the answer has the result of a conversation, by a stored
  -- profile of the target's host and port, in which the request's commands, rendered with the
  -- variables of the stored job and of the device's profile and none without a value, were sent, in
  -- one call, their output showed no error, and the connection was closed; provided that no two
  -- targets share a key and that a cancel flag once seen set stays set.
  pub completed_request_configures :
      (job_id : String) (payload : RunJobRequest) (app after : App) (answer : JobRunSummary)
      (prepared : PreparedRun)
      → Runs.run_job setup world polls fuel started now meanwhile published job_id payload app
        ≡ some (ok answer, after)
      → prepare_run job_id payload app.jobs app.devices ≡ ok prepared
      → answer.status ≡ completed
      → CancelStays setup bare (engine_job job_id payload prepared)
      → ((k : String) → in_devices k prepared.devices ≤ 1)
      → (device : DeviceTarget) → is_target (target_key device) prepared.devices ≡ true
      → IsDelivered job_id payload app prepared device answer
  completed_request_configures job_id payload app after answer prepared h p =
      let was =
        run_job-IsAnswered setup world polls fuel started now meanwhile published job_id payload app
          after answer h in
      let same = same_prepared (sym was.is_prepared ∙ p) in
      returned-IsDelivered job_id payload app answer prepared p (
        subst (λ made. IsReturned setup world (engine_job job_id payload made) polls fuel answer)
          same was.returned)
