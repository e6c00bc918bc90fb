-- ===== src/Api/Preparation.antt =====
-- backend_v2/app/api/run_preparation.py.
pub mod Ready
pub mod Rendered
pub mod Substituted
mod Examples
use nw_edit.Prelude.{
  String, Bool, true, false, not, ◌&&◌, ◌||◌, Option, none, some, List, [], ◌∷◌, ◌++◌, ◌==◌,
  if◌then◌else◌, or_default, join, filter, any, is_empty, sorted_set,
}
use nw_edit.Result.{Error, http_error, Result, ok, err, ◌>>=◌}
use nw_edit.Dict
use nw_edit.Dict.{Dict}
use nw_edit.Domain.Models.{JobRecord, DeviceTarget, target_key, DeviceProfile, profile_key}
use nw_edit.Stores.JobStore
use nw_edit.Stores.JobStore.{JobStore}
use nw_edit.Stores.DeviceStore
use nw_edit.Stores.DeviceStore.{DeviceStore}
use nw_edit.Text.Strip.{strip, lower}
use nw_edit.CommandTemplate.{render_commands}
use nw_edit.Engine.Run.{ExecutionConfig}

-- The payload; its five numbers stand in the configuration that is made of them, and
-- `has_devices` says that the extra fields have "devices".
pub record RunJobRequest : Type 0 where
  pub canary : Option DeviceTarget
  pub commands : List String
  pub command_scope : String
  pub verify_commands : Option (List String)
  pub verify_mode : String
  pub imported_device_keys : Option (List String)
  pub config : ExecutionConfig
  pub has_devices : Bool

pub record PreparedRun : Type 0 where
  pub job : JobRecord
  pub devices : List DeviceTarget
  pub canary : DeviceTarget
  pub commands_by_device : Dict (List String)
  pub verify_commands_by_device : Dict (List String)
  pub config : ExecutionConfig

abbrev pub bad_request : String → Error
bad_request text = http_error 400 text

-- `if test: raise ...`.
unfoldable pub refuse_if : Bool → Error → Result (Unit {0})
refuse_if true e = err e
refuse_if false e = ok tt

-- `{device.key: device for device in devices}`, added to what is there.
imported_map : Dict DeviceProfile → DeviceStore → Dict DeviceProfile
imported_map found [] = found
imported_map found (device ∷ devices) =
    imported_map (Dict.put found (profile_key device) device) devices

target_of : DeviceProfile → DeviceTarget
target_of profile = record { host = profile.host; port = profile.port }

-- `imported_map[key]` for each key. A missing key raises in the source; the keys have been checked.
targets_of : Dict DeviceProfile → List String → List DeviceTarget
unfolding target_of
targets_of imported [] = []
targets_of imported (key ∷ keys) =
    let rest = targets_of imported keys in
    elim (Dict.get imported key) [ none ↦ rest | some profile ↦ target_of profile ∷ rest ]

-- `key in {device.key for device in devices}`.
unfoldable pub is_target : String → List DeviceTarget → Bool
is_target key devices = any (λ device. target_key device == key) devices

unfoldable pub given {ℓ} : {A : Type ℓ} → Option A → Error → Result A
given none e = err e
given (some a) e = ok a

unfoldable pub resolve_run_targets :
    RunJobRequest → DeviceStore → Result (List DeviceTarget × DeviceTarget)
unfolding imported_map targets_of
resolve_run_targets payload devices = do
  refused ←
      refuse_if payload.has_devices
        (bad_request "devices is no longer supported; use imported_device_keys")
  keys ← given payload.imported_device_keys (bad_request "imported_device_keys is required")
  filled ← refuse_if (is_empty keys) (bad_request "imported_device_keys cannot be empty")
  let imported = imported_map [] (DeviceStore.list devices)
  let missing = filter (λ key. not (Dict.contains imported key)) keys
  let unknown = join "" ("Unknown imported_device_keys: " ∷ join ", " missing ∷ [])
  known ← refuse_if (not (is_empty missing)) (bad_request unknown)
  let targets = targets_of imported keys
  canary ← given payload.canary (bad_request "canary is required")
  let stray = not (is_target (target_key canary) targets)
  listed ← refuse_if stray (bad_request "Canary device must be in the device list")
  ok (targets, canary)

-- `(text or "all").strip().lower()`.
unfoldable pub mode_of : String → String
mode_of text = lower (strip (if text == "" then "all" else text))

-- The verify commands of one device.
unfoldable pub verify_commands_of :
    RunJobRequest → String → DeviceTarget → DeviceTarget → Option DeviceProfile → List String
verify_commands_of payload verify_mode canary device profile =
    let base =
      or_default payload.verify_commands
        (elim profile [ none ↦ [] | some found ↦ found.verify_cmds ]) in
    if verify_mode == "none"
    then []
    else if (verify_mode == "canary") && not (target_key device == target_key canary)
    then []
    else base

-- `merged_vars`: the job's variables, overwritten by those of the device.
unfoldable pub merged_vars : JobRecord → Option DeviceProfile → Dict String
merged_vars job none = job.global_vars
merged_vars job (some profile) = Dict.update job.global_vars profile.host_vars

missing_text : DeviceTarget → List String → String
missing_text device missing = join "" (
    "Missing command variables for "
    ∷ target_key device
    ∷ ": "
    ∷ join ", " (sorted_set missing)
    ∷ [])

-- The loop over the devices, with the two dictionaries that it fills.
unfoldable pub prepare_devices :
    JobRecord
    → RunJobRequest
    → String
    → DeviceTarget
    → DeviceStore
    → List DeviceTarget
    → Dict (List String)
    → Dict (List String)
    → Result (Dict (List String) × Dict (List String))
unfolding merged_vars missing_text
prepare_devices job payload verify_mode canary store [] commands verifies = ok (commands, verifies)
prepare_devices job payload verify_mode canary store (device ∷ devices) commands verifies =
    let key = target_key device in
    let profile = DeviceStore.get_by_key store key in
    let (rendered, missing) = render_commands payload.commands (merged_vars job profile) in
    let verify = verify_commands_of payload verify_mode canary device profile in
    refuse_if (not (is_empty missing)) (bad_request (missing_text device missing)) >>= λ complete.
    prepare_devices job payload verify_mode canary store devices (Dict.put commands key rendered)
      (Dict.put verifies key verify)

-- The devices that the command scope leaves.
unfoldable pub scoped : String → DeviceTarget → List DeviceTarget → List DeviceTarget
scoped command_scope canary devices =
    if command_scope == "canary"
    then filter (λ device. target_key device == target_key canary) devices
    else devices

unfoldable pub prepare_run : String → RunJobRequest → JobStore → DeviceStore → Result PreparedRun
prepare_run job_id payload jobs store = do
  job ← given (JobStore.get jobs job_id) (http_error 404 "Job not found")
  resolved ← resolve_run_targets payload store
  let (all_devices, canary) = resolved
  let scope = mode_of payload.command_scope
  let known_scope = (scope == "all") || (scope == "canary")
  scope_ok ← refuse_if (not known_scope) (bad_request "command_scope must be one of: all, canary")
  let devices = scoped scope canary all_devices
  let mode = mode_of payload.verify_mode
  let known_mode = (mode == "all") || ((mode == "canary") || (mode == "none"))
  mode_ok ← refuse_if (not known_mode) (bad_request "verify_mode must be one of: all, canary, none")
  dicts ← prepare_devices job payload mode canary store devices [] []
  ok (record {
    job = job;
    devices = devices;
    canary = canary;
    commands_by_device = dicts.0;
    verify_commands_by_device = dicts.1;
    config = payload.config;
  })
