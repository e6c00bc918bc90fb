-- ===== src/Api/Wiring.antt =====
-- How backend_v2/app/api/main.py puts the application together: the allowed origins, and the worker
-- and the validator that the two modes choose. The variables of the environment are arguments.
pub mod Netmiko
pub mod Returns
pub mod Request
mod Examples
use nw_edit.Prelude.{
  ℕ, String, Bool, ◌==◌, not, Option, none, some, List, or_default, map, filter, if◌then◌else◌,
}
use nw_edit.Text.Strip.{strip}
use nw_edit.Text.Split.{split}
use nw_edit.Dict.{Dict}
use nw_edit.Domain.Models.{DeviceProfile, DeviceTarget, DeviceExecutionResult}
use nw_edit.Stores.DeviceStore.{DeviceStore}
use nw_edit.Result.{netmiko_error}
use nw_edit.Netmiko.Session.{timeout, authentication, other, Outcome, done, raised, Remote}
use nw_edit.Netmiko.Adapters.{run_netmiko, run_simulated, validate_simulated, validate_netmiko}
use nw_edit.Engine.Env
use nw_edit.Engine.Env.{Reply, returned, Env}
use nw_edit.Engine.Run.{World}

-- The list of origins, by the value of NW_EDIT_V2_CORS_ORIGINS.
unfoldable pub cors_origins : Option String → List String
unfolding split strip
cors_origins value =
    let text = or_default value "http://127.0.0.1:3010" in
    filter (λ origin. not (origin == "")) (map strip (split "," text))

-- The worker of the engine. The device store is the worker's resolver.
unfoldable pub worker_run :
    String
    → Remote
    → DeviceStore
    → DeviceTarget
    → List String
    → List String
    → Outcome DeviceExecutionResult
unfolding run_netmiko run_simulated
worker_run worker_mode remote store device commands verify_commands =
    if worker_mode == "netmiko"
    then run_netmiko remote store device commands (some verify_commands)
    else done (run_simulated device commands (some verify_commands))

-- What the calls of the worker meet, by the thread and the number of the call: the device at the
-- other end, and the contents of the device store.
pub record Calls : Type 0 where
  pub main : ℕ → Remote × DeviceStore
  pub thread : ℕ → ℕ → Remote × DeviceStore

-- What the engine gets of a call: the result, or the exception.
abbrev pub reply_of : Outcome DeviceExecutionResult → Reply
reply_of (done result) = returned result
reply_of (raised (timeout text)) = Env.raised (netmiko_error text)
reply_of (raised (authentication text)) = Env.raised (netmiko_error text)
reply_of (raised (other text)) = Env.raised (netmiko_error text)

-- A thread whose calls of the worker go to the application's worker.
abbrev pub wired_env : String → (ℕ → Remote × DeviceStore) → Env → Env
wired_env worker_mode calls env = record env {
  reply = λ clock device commands verify_commands.
      reply_of
        (worker_run worker_mode (calls clock).0 (calls clock).1 device commands verify_commands);
}

-- The surroundings of the engine in the application.
abbrev pub wired : String → Calls → World → World
wired worker_mode calls world = record world {
  main = wired_env worker_mode calls.main world.main;
  thread = λ n. wired_env worker_mode (calls.thread n) (world.thread n);
}

-- The validator of the import service.
unfoldable pub validator_of : String → Remote → DeviceProfile → Bool × Option String
unfolding validate_netmiko validate_simulated
validator_of validator_mode remote device =
    if validator_mode == "netmiko"
    then validate_netmiko remote device
    else validate_simulated device
