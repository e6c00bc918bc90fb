-- ===== src/Api/Mappers/Examples.antt =====
-- A run with one device that has said nothing.
use nw_edit.Prelude.{◌≡◌, refl, [], ◌∷◌, map}
use nw_edit.Domain.Models.{completed, result_of, JobRunSummary}
use nw_edit.Api.Mappers.{to_run_response, device_run_response}

abbrev quiet_run : JobRunSummary
quiet_run = record {
  job_id = "j1";
  status = completed;
  device_results = ("r1:22", result_of "success") ∷ [];
  commands = [];
  verify_commands = [];
  target_device_keys = "r1:22" ∷ [];
}

quiet_response :
    ((to_run_response quiet_run).status ≡ "completed")
    × (map (λ entry. entry.1.diff) (to_run_response quiet_run).device_results ≡ "" ∷ [])
unfolding to_run_response device_run_response
quiet_response = (refl, refl)
