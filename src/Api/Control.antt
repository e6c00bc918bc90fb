-- ===== src/Api/Control.antt =====
-- The control endpoints of backend_v2/app/api/main.py, and the invariant that ties the flags that
-- the engine reads to the status of the job.
pub mod InStep
pub mod Endpoints
use nw_edit.Prelude.{String}
use nw_edit.Domain.Models.{JobEvent, pause, resume, cancel, JobRecord}
use nw_edit.Api.State.{Handler}
use nw_edit.Api.Execution.{
  Action, request_pause, request_resume, request_cancel, apply_control_action,
}

abbrev pub pausing : Action
pausing = record {
  event_name = "pause";
  status = "paused";
  message = "Pause requested";
  mutate_control = request_pause;
}

abbrev pub resuming : Action
resuming = record {
  event_name = "resume";
  status = "running";
  message = "Resume requested";
  mutate_control = request_resume;
}

abbrev pub cancelling : Action
cancelling = record {
  event_name = "cancel";
  status = "cancelled";
  message = "Cancel requested";
  mutate_control = request_cancel;
}

unfoldable pub pause_job : String → String → Handler JobRecord
pause_job now job_id app = apply_control_action now job_id pausing app

unfoldable pub resume_job : String → String → Handler JobRecord
resume_job now job_id app = apply_control_action now job_id resuming app

unfoldable pub cancel_job : String → String → Handler JobRecord
cancel_job now job_id app = apply_control_action now job_id cancelling app

unfoldable pub terminate_job : String → String → Handler JobRecord
terminate_job now job_id app = cancel_job now job_id app
