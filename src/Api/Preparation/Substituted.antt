-- ===== src/Api/Preparation/Substituted.antt =====
-- The commands of a prepared run, by the values that the variables have for a device.
use Prim.Native.String.{◌++◌ as ◌<>◌}
use nw_edit.Prelude.{
  zero, String, ◌==◌, ◌||◌, ◌&&◌, not, Option, none, some, or_default, List, [], ◌∷◌, ◌++◌,
  if◌then◌else◌, ◌≡◌, refl, sym, ◌∙◌, ap, true, arith, Option-cases, inl, inr,
}
use nw_edit.Result.{ok}
use nw_edit.Dict
use nw_edit.Dict.{Dict}
use nw_edit.Dict.Laws.{get-put}
use nw_edit.Domain.Models.{JobRecord, DeviceTarget, target_key, DeviceProfile}
use nw_edit.Stores.JobStore
use nw_edit.Stores.JobStore.{JobStore}
use nw_edit.Stores.DeviceStore
use nw_edit.Stores.DeviceStore.{DeviceStore}
use nw_edit.CommandTemplate.{
  Piece, copied, token, pieces, replaced, rendered, missing_of, render_command, render_commands,
}
use nw_edit.Api.Preparation.{
  RunJobRequest, PreparedRun, is_target, prepare_run, mode_of, verify_commands_of, merged_vars,
}
use nw_edit.Api.Preparation.Rendered.{prepare_run-IsRendered}

-- The value of the last entry with a name, which in a dictionary is the only one.
abbrev pub latest : Dict String → String → Option String
latest [] name = none
latest ((key, value) ∷ vars) name =
    let later = latest vars name in
    elim later [ some found ↦ some found | none ↦ if key == name then some value else none ]

-- The device's own variables.
abbrev pub own_vars : Option DeviceProfile → Dict String
own_vars none = []
own_vars (some profile) = profile.host_vars

-- The value of a variable for a device: the device's own, and otherwise the job's.
abbrev pub value_for : JobRecord → Option DeviceProfile → String → Option String
value_for job profile name = elim (latest (own_vars profile) name) [
  | some value ↦ some value
  | none ↦ Dict.get job.global_vars name
]

-- A text that the pieces of a template stand for: what is copied stands as it is, and every token
-- for the value of its name, which it has.
pub data Filled (value : String → Option String) : List Piece → String → Type 0 where
  end : Filled value [] ""
  same :
      (c : _) {found : List Piece} {text : String}
      → Filled value found text
      → Filled value (copied c ∷ found) (String.◌∷◌ c "" <> text)
  given :
      (key whole filling : String) {found : List Piece} {text : String}
      → value key ≡ some filling
      → Filled value found text
      → Filled value (token key whole ∷ found) (filling <> text)

-- Line by line.
pub data AllFilled (value : String → Option String) : List String → List String → Type 0 where
  done : AllFilled value [] []
  line :
      (template text : String) {templates texts : List String}
      → Filled value (pieces zero template) text
      → AllFilled value templates texts
      → AllFilled value (template ∷ templates) (text ∷ texts)

get-update :
    (d e : Dict String) (name : String)
    → Dict.get (Dict.update d e) name
      ≡ (elim (latest e name) [ some found ↦ some found | none ↦ Dict.get d name ])
unfolding Dict.update
get-update d [] name = refl
get-update d ((key, value) ∷ e) name =
    ground (arith, get-update (Dict.put d key value) e name, get-put d key value name)

get-merged_vars :
    (job : JobRecord) (profile : Option DeviceProfile) (name : String)
    → Dict.get (merged_vars job profile) name ≡ value_for job profile name
unfolding merged_vars
get-merged_vars job none name = refl
get-merged_vars job (some profile) name = get-update job.global_vars profile.host_vars name

module _ (vars : Dict String) (value : String → Option String)
    (agree : (name : String) → Dict.get vars name ≡ value name) where
  rendered-Filled :
      (found : List Piece) → missing_of vars found ≡ [] → Filled value found (rendered vars found)
  unfolding missing_of rendered replaced
  rendered-Filled [] h = end
  rendered-Filled (copied c ∷ found) h = same c (rendered-Filled found h)
  rendered-Filled (token key whole ∷ found) h = elim (Option-cases (Dict.get vars key)) [
    | inl e ↦ absurd (ground arith)
    | inr (filling, e) ↦
        rw (e, rendered, replaced)
          (given key whole filling (sym (agree key) ∙ e)
            (rendered-Filled found (rw (e, missing_of) at h)))
  ]

  append_nil : (xs ys : List String) → xs ++ ys ≡ [] → (xs ≡ []) × (ys ≡ [])
  append_nil [] ys h = (refl, h)
  append_nil (x ∷ xs) ys h = cc

  render_commands-AllFilled :
      (commands : List String)
      → (render_commands commands vars).1 ≡ []
      → AllFilled value commands (render_commands commands vars).0
  unfolding render_commands render_command
  render_commands-AllFilled [] h = done
  render_commands-AllFilled (command ∷ commands) h =
      let (own, others) =
        append_nil (missing_of vars (pieces zero command)) (render_commands commands vars).1 h in
      line command _ (rendered-Filled (pieces zero command) own)
        (render_commands-AllFilled commands others)

abbrev pub own_verify_cmds : Option DeviceProfile → List String
own_verify_cmds none = []
own_verify_cmds (some profile) = profile.verify_cmds

-- The verify commands of a device: none with the mode `none`, none but for the canary with the mode
-- `canary`; otherwise those of the request, and if it has none those of the device's profile.
abbrev pub verify_for :
    RunJobRequest → (canary device : DeviceTarget) → Option DeviceProfile → List String
verify_for payload canary device profile =
    let mode = mode_of payload.verify_mode in
    let is_canary = target_key device == target_key canary in
    if (mode == "none") || ((mode == "canary") && not is_canary)
    then []
    else or_default payload.verify_commands (own_verify_cmds profile)

verify_commands_of-verify_for :
    (payload : RunJobRequest) (canary device : DeviceTarget) (profile : Option DeviceProfile)
    → verify_commands_of payload (mode_of payload.verify_mode) canary device profile
      ≡ verify_for payload canary device profile
unfolding verify_commands_of
verify_commands_of-verify_for payload canary device none = ground arith
verify_commands_of-verify_for payload canary device (some profile) = ground arith

-- What each device of a prepared run is to be sent.
pub record IsSubstituted (job_id : String) (payload : RunJobRequest) (jobs : JobStore)
    (store : DeviceStore) (prepared : PreparedRun) : Type 0 where
  pub job : JobRecord
  pub stored : JobStore.get jobs job_id ≡ some job
  pub canary : is_target (target_key prepared.canary) prepared.devices ≡ true
  pub commands :
      (device : DeviceTarget)
      → is_target (target_key device) prepared.devices ≡ true
      → (lines : List String) × (Dict.get prepared.commands_by_device (target_key device)
          ≡ some lines)
        × AllFilled
            (value_for job (DeviceStore.get_by_key store (target_key device)))
            payload.commands
            lines
  pub verify_commands :
      (device : DeviceTarget)
      → is_target (target_key device) prepared.devices ≡ true
      → Dict.get prepared.verify_commands_by_device (target_key device)
        ≡ some (
            verify_for payload prepared.canary device
              (DeviceStore.get_by_key store (target_key device)))

-- A run that is prepared with success has its canary among its devices. It holds for each of them
-- the commands of the request, in order, in which every token stands for the value that its name has
-- among the variables of the stored profile with the device's key or, if it has none there, among
-- those of the stored job, and each token has such a value; and the verify commands of the request's
-- mode.
pub prepare_run-IsSubstituted :
    (job_id : String) (payload : RunJobRequest) (jobs : JobStore) (store : DeviceStore)
    (prepared : PreparedRun)
    → prepare_run job_id payload jobs store ≡ ok prepared
    → IsSubstituted job_id payload jobs store prepared
prepare_run-IsSubstituted job_id payload jobs store prepared h =
    let ready = prepare_run-IsRendered job_id payload jobs store prepared h in
    record {
      job = ready.job;
      stored = ready.stored;
      canary = ready.canary;
      commands = λ device there.
          let (found, complete, verified) = ready.commands device there in
          let profile = DeviceStore.get_by_key store (target_key device) in
          let vars = merged_vars ready.job profile in
          (
            _,
            found,
            render_commands-AllFilled vars (value_for ready.job profile)
                (get-merged_vars ready.job profile) payload.commands complete,
          );
      verify_commands = λ device there.
          let (found, complete, verified) = ready.commands device there in
          verified
          ∙ ap some (
              verify_commands_of-verify_for payload prepared.canary device
                (DeviceStore.get_by_key store (target_key device)));
    }
