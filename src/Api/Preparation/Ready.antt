-- ===== src/Api/Preparation/Ready.antt =====
-- What a prepared run promises to the engine.
use nw_edit.Prelude.{
  String, ◌≡◌, true, ◌||◌, some, List, [], ◌∷◌, arith, ◌==◌, eq_iff, filter, Bool-cases,
  Option-cases, inl, inr,
}
use nw_edit.Result.{ok, Result-cases}
use nw_edit.Dict
use nw_edit.Dict.{Dict}
use nw_edit.Dict.Laws.{get-put}
use nw_edit.Domain.Models.{JobRecord, DeviceTarget, target_key}
use nw_edit.Stores.JobStore
use nw_edit.Stores.JobStore.{JobStore}
use nw_edit.Stores.DeviceStore
use nw_edit.Stores.DeviceStore.{DeviceStore}
use nw_edit.CommandTemplate.{render_commands}
use nw_edit.Api.Preparation.{
  RunJobRequest, PreparedRun, refuse_if, is_target, given, resolve_run_targets, prepare_devices,
  scoped, prepare_run, mode_of, verify_commands_of, merged_vars,
}

-- The canary is one of the resolved targets.
resolved_lem :
    (payload : RunJobRequest) (store : DeviceStore) (targets : List DeviceTarget)
    (canary : DeviceTarget)
    → resolve_run_targets payload store ≡ ok (targets, canary)
    → is_target (target_key canary) targets ≡ true
unfolding resolve_run_targets refuse_if given
resolved_lem payload store targets canary h = grind arith

is_target-filter :
    (key : String) (devices : List DeviceTarget)
    → is_target key devices ≡ true
    → is_target key (filter (λ device. target_key device == key) devices) ≡ true
unfolding is_target
is_target-filter key [] h = cc
is_target-filter key (device ∷ devices) h = ground (arith, is_target-filter key devices)

-- The dictionaries get an entry for each device and lose none.
prepare_devices_lem :
    (job : JobRecord) (payload : RunJobRequest) (mode : String) (canary : DeviceTarget)
    (store : DeviceStore) (devices : List DeviceTarget) (commands verifies : Dict (List String))
    (dicts : Dict (List String) × Dict (List String)) (k : String)
    → prepare_devices job payload mode canary store devices commands verifies ≡ ok dicts
    → ((Dict.contains commands k || is_target k devices) ≡ true → Dict.contains dicts.0 k ≡ true)
      × ((Dict.contains verifies k || is_target k devices) ≡ true → Dict.contains dicts.1 k ≡ true)
unfolding prepare_devices is_target refuse_if
prepare_devices_lem job payload mode canary store [] commands verifies dicts k h = ground arith
prepare_devices_lem job payload mode canary store (device ∷ devices) commands verifies dicts k h =
    let key = target_key device in
    let profile = DeviceStore.get_by_key store key in
    let (rendered, missing) = render_commands payload.commands (merged_vars job profile) in
    let verify = verify_commands_of payload mode canary device profile in
    ground (
      arith,
      prepare_devices_lem job payload mode canary store devices (Dict.put commands key rendered)
          (Dict.put verifies key verify) dicts k,
      get-put commands key rendered k,
      get-put verifies key verify k,
      eq_iff key k,
    )

-- What the engine relies on.
pub record IsReady (prepared : PreparedRun) : Type 0 where
  pub canary : is_target (target_key prepared.canary) prepared.devices ≡ true
  pub commands :
      (k : String)
      → is_target k prepared.devices ≡ true
      → (Dict.contains prepared.commands_by_device k ≡ true)
        × (Dict.contains prepared.verify_commands_by_device k ≡ true)

scoped_lem :
    (scope : String) (canary : DeviceTarget) (devices : List DeviceTarget)
    → is_target (target_key canary) devices ≡ true
    → is_target (target_key canary) (scoped scope canary devices) ≡ true
unfolding scoped
scoped_lem scope canary devices h = elim (Bool-cases (scope == "canary")) [
  | inl e ↦ rw e (is_target-filter (target_key canary) devices h)
  | inr e ↦ rw e h
]

-- What a prepared run is made of.
pub prepared_lem :
    (job_id : String) (payload : RunJobRequest) (jobs : JobStore) (store : DeviceStore)
    (prepared : PreparedRun) (job : JobRecord) (targets : List DeviceTarget) (canary : DeviceTarget)
    → JobStore.get jobs job_id ≡ some job
    → resolve_run_targets payload store ≡ ok (targets, canary)
    → prepare_run job_id payload jobs store ≡ ok prepared
    → let scope = mode_of payload.command_scope in
      let mode = mode_of payload.verify_mode in
      let devices = scoped scope canary targets in
      (prepared.canary ≡ canary)
      × (prepared.devices ≡ devices)
      × (prepare_devices job payload mode canary store devices [] []
          ≡ ok (prepared.commands_by_device, prepared.verify_commands_by_device))
unfolding prepare_run refuse_if given
prepared_lem job_id payload jobs store prepared job targets canary j r h = grind arith

-- In a run that is prepared with success the canary is one of the devices, also where the scope
-- leaves the canary alone, and each device has its commands and its verify commands.
pub prepare_run-IsReady :
    (job_id : String) (payload : RunJobRequest) (jobs : JobStore) (store : DeviceStore)
    (prepared : PreparedRun)
    → prepare_run job_id payload jobs store ≡ ok prepared
    → IsReady prepared
unfolding prepare_run given Dict.get
prepare_run-IsReady job_id payload jobs store prepared h =
    elim (Option-cases (JobStore.get jobs job_id)) [
      | inl j ↦ absurd (grind arith)
      | inr (job, j) ↦ elim (Result-cases (resolve_run_targets payload store)) [
        | inl (e, r) ↦ absurd (grind arith)
        | inr ((targets, canary), r) ↦
            let (own, left, made) =
              prepared_lem job_id payload jobs store prepared job targets canary j r h in
            let mode = mode_of payload.verify_mode in
            let scope = mode_of payload.command_scope in
            let devices = scoped scope canary targets in
            record {
              canary =
                  rw (own, left)
                    (scoped_lem scope canary targets (resolved_lem payload store targets canary r));
              commands = λ k t.
                  let there : is_target k devices ≡ true = rw left at t in
                  let (c, v) =
                    prepare_devices_lem job payload mode canary store devices [] []
                      (prepared.commands_by_device, prepared.verify_commands_by_device) k made in
                  (c there, v there);
            }
      ]
    ]
