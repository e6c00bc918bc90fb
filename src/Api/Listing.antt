-- ===== src/Api/Listing.antt =====
-- The endpoints of backend_v2/app/api/main.py that only read: the presets, the modes and the health.
use nw_edit.Prelude.{String, Option, List, [], ◌∷◌, map}
use nw_edit.Dict.{Dict}
use nw_edit.Presets
use nw_edit.Presets.{Presets}
use nw_edit.Api.Mappers.{PresetResponse, to_preset_response}
use nw_edit.Api.Devices.{resolve_mode}

pub list_presets : Option String → Presets → List PresetResponse
unfolding Presets.list_presets to_preset_response
list_presets os_model items = map to_preset_response (Presets.list_presets os_model items)

pub list_preset_os_models : Presets → List String
unfolding Presets.list_os_models
list_preset_os_models items = Presets.list_os_models items

pub record RuntimeModesResponse : Type 0 where
  pub worker_mode : String
  pub validator_mode : String

-- By the values of NW_EDIT_V2_WORKER_MODE and NW_EDIT_V2_VALIDATOR_MODE.
pub get_runtime_modes : Option String → Option String → RuntimeModesResponse
unfolding resolve_mode
get_runtime_modes worker_value validator_value = record {
  worker_mode = resolve_mode worker_value;
  validator_mode = resolve_mode validator_value;
}

pub health : Dict String
health = ("status", "ok") ∷ []
