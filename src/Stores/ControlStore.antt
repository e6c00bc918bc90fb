-- ===== src/Stores/ControlStore.antt =====
-- backend_v2/app/application/execution_control.py and
-- backend_v2/app/infrastructure/in_memory_control_store.py. The source hands out the control object
-- itself and its users set and clear the events on it; here a user writes the changed control back
-- under its job with `set_control`.
use nw_edit.Prelude.{ℕ, String, Bool, false, Option, none, some, [], length}
use nw_edit.Dict
use nw_edit.Dict.{Dict}

pub record ExecutionControl : Type 0 where
  pub pause_event : Bool
  pub cancel_event : Bool

-- `ExecutionControl()`: both events are created clear.
abbrev pub new_control : ExecutionControl
new_control = record { pause_event = false; cancel_event = false }

abbrev pub ControlStore : Type 0
ControlStore = Dict ExecutionControl

unfoldable pub get : ControlStore → String → Option ExecutionControl
get controls job_id = Dict.get controls job_id

keep_or_create : ControlStore → String → Option ExecutionControl → ExecutionControl × ControlStore
keep_or_create controls job_id none = (new_control, Dict.put controls job_id new_control)
keep_or_create controls job_id (some control) = (control, controls)

unfoldable pub get_or_create : ControlStore → String → ExecutionControl × ControlStore
unfolding keep_or_create
get_or_create controls job_id = keep_or_create controls job_id (Dict.get controls job_id)

unfoldable pub set_control : ControlStore → String → ExecutionControl → ControlStore
set_control controls job_id control = Dict.put controls job_id control

unfoldable pub clear : ControlStore → ℕ × ControlStore
clear controls = (length controls, [])
