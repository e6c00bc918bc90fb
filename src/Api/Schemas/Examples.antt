-- ===== src/Api/Schemas/Examples.antt =====
-- Requests at the bounds.
use nw_edit.Prelude.{◌≡◌, refl, true, false, none, [], ◌∷◌, pos, negsuc}
use nw_edit.Text.Strip.{size}
use nw_edit.Engine.Run.{ExecutionConfig}
use nw_edit.Api.Preparation.{RunJobRequest}
use nw_edit.Api.Schemas.{accepts_target, accepts_run, accepts_create_job, accepts_status_command}

ports :
    (accepts_target (record { host = "a"; port = pos 65535 }) ≡ true)
    × (accepts_target (record { host = "a"; port = pos 65536 }) ≡ false)
    × (accepts_target (record { host = "a"; port = negsuc 0 }) ≡ false)
    × (accepts_target (record { host = ""; port = pos 22 }) ≡ false)
unfolding accepts_target size
ports = (refl, refl, refl, refl)

abbrev config : ExecutionConfig
config = record {
  concurrency_limit = 100;
  stagger_delay = 60000;
  stop_on_error = true;
  non_canary_retry_limit = pos 3;
  retry_backoff_seconds = 0;
}

abbrev largest : RunJobRequest
largest = record {
  canary = none;
  commands = "vlan 10" ∷ [];
  command_scope = "all";
  verify_commands = none;
  verify_mode = "all";
  imported_device_keys = none;
  config = config;
  has_devices = false;
}

limits :
    (accepts_run largest ≡ true)
    × (accepts_run (record largest { config = record config { concurrency_limit = 101 } }) ≡ false)
    × (accepts_run (record largest { config = record config { concurrency_limit = 0 } }) ≡ false)
    × (accepts_run (record largest { config = record config { non_canary_retry_limit = pos 4 } })
        ≡ false)
    × (accepts_run (record largest { commands = [] }) ≡ false)
unfolding accepts_run
limits = (refl, refl, refl, refl, refl)

texts :
    (accepts_create_job (record { job_name = "vlan"; creator = ""; global_vars = [] }) ≡ false)
    × (accepts_status_command (record { host = "a"; port = pos 22; commands = "show" }) ≡ true)
unfolding accepts_create_job accepts_status_command size
texts = (refl, refl)
