-- ===== src/Api/Preparation/Rendered.antt =====
-- The commands that a prepared run holds for each of its devices.
use nw_edit.Prelude.{
  String, ◌≡◌, refl, sym, subst, true, some, List, [], ◌∷◌, arith, eq_iff, Option-cases, Option,
  if◌then◌else◌, inl, inr, is_empty, is_empty-eq-true,
}
use nw_edit.Result.{ok, Result-cases}
use nw_edit.Dict
use nw_edit.Dict.{Dict}
use nw_edit.Dict.Laws.{get-put}
use nw_edit.Domain.Models.{JobRecord, DeviceTarget, target_key, DeviceProfile}
use nw_edit.Stores.JobStore
use nw_edit.Stores.JobStore.{JobStore}
use nw_edit.Stores.DeviceStore
use nw_edit.Stores.DeviceStore.{DeviceStore}
use nw_edit.CommandTemplate.{render_commands}
use nw_edit.Api.Preparation.{
  RunJobRequest, PreparedRun, refuse_if, is_target, given, resolve_run_targets, prepare_devices,
  scoped, prepare_run, mode_of, verify_commands_of, merged_vars,
}
use nw_edit.Api.Preparation.Ready.{prepare_run-IsReady, prepared_lem}

-- The commands of a request and the names without a value, for the device with a key.
abbrev pub rendered_for :
    JobRecord → RunJobRequest → DeviceStore → String → List String × List String
rendered_for job payload store key =
    render_commands payload.commands (merged_vars job (DeviceStore.get_by_key store key))

-- The dictionary holds them for each device, and what it held before for any other key.
get-prepare_devices :
    (job : JobRecord) (payload : RunJobRequest) (mode : String) (canary : DeviceTarget)
    (store : DeviceStore) (devices : List DeviceTarget) (commands verifies : Dict (List String))
    (dicts : Dict (List String) × Dict (List String)) (k : String)
    → prepare_devices job payload mode canary store devices commands verifies ≡ ok dicts
    → Dict.get dicts.0 k ≡ (
        if is_target k devices
        then some (rendered_for job payload store k).0
        else Dict.get commands k)
unfolding prepare_devices is_target refuse_if
get-prepare_devices job payload mode canary store [] commands verifies dicts k h = ground arith
get-prepare_devices job payload mode canary store (device ∷ devices) commands verifies dicts k h =
    let key = target_key device in
    let profile = DeviceStore.get_by_key store key in
    let (rendered, missing) = render_commands payload.commands (merged_vars job profile) in
    let verify = verify_commands_of payload mode canary device profile in
    ground (
      arith,
      get-prepare_devices job payload mode canary store devices (Dict.put commands key rendered)
          (Dict.put verifies key verify) dicts k,
      get-put commands key rendered k,
      eq_iff key k,
    )

-- The verify commands depend on the key of a device alone.
same_verify_commands :
    (payload : RunJobRequest) (mode : String) (canary a b : DeviceTarget)
    (profile : Option DeviceProfile)
    → target_key a ≡ target_key b
    → verify_commands_of payload mode canary a profile
      ≡ verify_commands_of payload mode canary b profile
unfolding verify_commands_of
same_verify_commands payload mode canary a b profile e = rw e refl

get-verify_commands :
    (job : JobRecord) (payload : RunJobRequest) (mode : String) (canary : DeviceTarget)
    (store : DeviceStore) (devices : List DeviceTarget) (commands verifies : Dict (List String))
    (dicts : Dict (List String) × Dict (List String)) (device : DeviceTarget)
    → prepare_devices job payload mode canary store devices commands verifies ≡ ok dicts
    → Dict.get dicts.1 (target_key device) ≡ (
        if is_target (target_key device) devices
        then some (
            verify_commands_of payload mode canary device
              (DeviceStore.get_by_key store (target_key device)))
        else Dict.get verifies (target_key device))
unfolding prepare_devices is_target refuse_if
get-verify_commands job payload mode canary store [] commands verifies dicts device h = ground arith
get-verify_commands job payload mode canary store (other ∷ devices) commands verifies dicts device
      h =
    let key = target_key other in
    let profile = DeviceStore.get_by_key store key in
    let (rendered, missing) = render_commands payload.commands (merged_vars job profile) in
    let verify = verify_commands_of payload mode canary other profile in
    ground (
      arith,
      get-verify_commands job payload mode canary store devices (Dict.put commands key rendered)
          (Dict.put verifies key verify) dicts device,
      get-put verifies key verify (target_key device),
      eq_iff key (target_key device),
      same_verify_commands payload mode canary other device profile,
    )

-- No device lacks a value.
complete-prepare_devices :
    (job : JobRecord) (payload : RunJobRequest) (mode : String) (canary : DeviceTarget)
    (store : DeviceStore) (devices : List DeviceTarget) (commands verifies : Dict (List String))
    (dicts : Dict (List String) × Dict (List String)) (k : String)
    → prepare_devices job payload mode canary store devices commands verifies ≡ ok dicts
    → is_target k devices ≡ true
    → is_empty (rendered_for job payload store k).1 ≡ true
unfolding prepare_devices is_target refuse_if
complete-prepare_devices job payload mode canary store [] commands verifies dicts k h t = cc
complete-prepare_devices job payload mode canary store (device ∷ devices) commands verifies dicts k
      h t =
    let key = target_key device in
    let profile = DeviceStore.get_by_key store key in
    let (rendered, missing) = render_commands payload.commands (merged_vars job profile) in
    let verify = verify_commands_of payload mode canary device profile in
    ground (
      arith,
      complete-prepare_devices job payload mode canary store devices
          (Dict.put commands key rendered) (Dict.put verifies key verify) dicts k,
      eq_iff key k,
    )

-- The verify commands of a request for a device.
abbrev pub verified_for : RunJobRequest → DeviceStore → (canary device : DeviceTarget) → List String
verified_for payload store canary device =
    verify_commands_of payload (mode_of payload.verify_mode) canary device
      (DeviceStore.get_by_key store (target_key device))

-- What each device of a prepared run is to be sent.
pub record IsRendered (job_id : String) (payload : RunJobRequest) (jobs : JobStore)
    (store : DeviceStore) (prepared : PreparedRun) : Type 0 where
  pub job : JobRecord
  pub stored : JobStore.get jobs job_id ≡ some job
  pub canary : is_target (target_key prepared.canary) prepared.devices ≡ true
  pub commands :
      (device : DeviceTarget)
      → is_target (target_key device) prepared.devices ≡ true
      → (Dict.get prepared.commands_by_device (target_key device)
          ≡ some (rendered_for job payload store (target_key device)).0)
        × ((rendered_for job payload store (target_key device)).1 ≡ [])
        × (Dict.get prepared.verify_commands_by_device (target_key device)
            ≡ some (verified_for payload store prepared.canary device))

prepared-IsRendered :
    (job_id : String) (payload : RunJobRequest) (jobs : JobStore) (store : DeviceStore)
    (prepared : PreparedRun) (job : JobRecord) (targets : List DeviceTarget) (canary : DeviceTarget)
    → prepare_run job_id payload jobs store ≡ ok prepared
    → JobStore.get jobs job_id ≡ some job
    → resolve_run_targets payload store ≡ ok (targets, canary)
    → IsRendered job_id payload jobs store prepared
unfolding Dict.get
prepared-IsRendered job_id payload jobs store prepared job targets canary h j r =
    let (own, left, made) =
      prepared_lem job_id payload jobs store prepared job targets canary j r h in
    let mode = mode_of payload.verify_mode in
    let devices = scoped (mode_of payload.command_scope) canary targets in
    let dicts : Dict (List String) × Dict (List String) =
      (prepared.commands_by_device, prepared.verify_commands_by_device) in
    record {
      job = job;
      stored = j;
      canary = (prepare_run-IsReady job_id payload jobs store prepared h).canary;
      commands = λ device t.
          let k = target_key device in
          let there : is_target k devices ≡ true = rw left at t in
          let found =
            get-prepare_devices job payload mode canary store devices [] [] dicts k made in
          let verified =
            get-verify_commands job payload mode canary store devices [] [] dicts device made in
          (
            rw there at found,
            is_empty-eq-true _ (
                complete-prepare_devices job payload mode canary store devices [] [] dicts k made
                  there),
            subst
                (λ c.
                  Dict.get prepared.verify_commands_by_device k
                  ≡ some (verified_for payload store c device))
                (sym own) (rw there at verified),
          );
    }

-- A run that is prepared with success has its canary among its devices, and holds for each of them
-- the commands of the request, rendered with the variables of the stored job overwritten by those of
-- the stored profile with the device's key and with no name in them left without a value, and the
-- verify commands that the request's mode gives it.
pub prepare_run-IsRendered :
    (job_id : String) (payload : RunJobRequest) (jobs : JobStore) (store : DeviceStore)
    (prepared : PreparedRun)
    → prepare_run job_id payload jobs store ≡ ok prepared
    → IsRendered job_id payload jobs store prepared
unfolding prepare_run given
prepare_run-IsRendered job_id payload jobs store prepared h =
    elim (Option-cases (JobStore.get jobs job_id)) [
      | inl j ↦ absurd (grind arith)
      | inr (job, j) ↦ elim (Result-cases (resolve_run_targets payload store)) [
        | inl (e, r) ↦ absurd (grind arith)
        | inr ((targets, canary), r) ↦
            prepared-IsRendered job_id payload jobs store prepared job targets canary h j r
      ]
    ]
