-- ===== src/Presets.antt =====
-- backend_v2/app/infrastructure/file_preset_store.py and the preset endpoints of
-- backend_v2/app/api/main.py. The state is the list of items in the file; each method holds the
-- store's lock while it reads and writes it. An item stands for the preset that is read from it (see
-- Items), and each has an id.
pub mod Unique
pub mod Items
pub mod Requests
mod Examples
use nw_edit.Prelude.{
  String, Bool, true, false, not, ◌&&◌, Option, none, some, List, [], ◌∷◌, ◌++◌, ◌==◌,
  if◌then◌else◌, insert_sorted, join, filter,
}
use nw_edit.Result.{Error, value_error, http_error, Result, ok, err}
use nw_edit.Domain.Models.{ExecutionPreset}

abbrev pub Presets : Type 0
Presets = List ExecutionPreset

unfoldable pub list_presets : Option String → Presets → Presets
list_presets none items = items
list_presets (some os_model) items = filter (λ preset. preset.os_model == os_model) items

-- The sorted set of the models that are not empty.
unfoldable pub list_os_models : Presets → List String
list_os_models [] = []
list_os_models (item ∷ items) =
    let rest = list_os_models items in
    if item.os_model == "" then rest else insert_sorted item.os_model rest

-- `exclude_preset_id and item_id == exclude_preset_id`.
abbrev pub is_excluded : Option String → ExecutionPreset → Bool
is_excluded none item = false
is_excluded (some preset_id) item = not (preset_id == "") && (item.preset_id == preset_id)

-- Whether `_ensure_unique` raises.
unfoldable pub conflicts : Option String → String → String → Presets → Bool
conflicts excluded name os_model [] = false
conflicts excluded name os_model (item ∷ items) =
    let rest = conflicts excluded name os_model items in
    if is_excluded excluded item
    then rest
    else if (item.name == name) && (item.os_model == os_model)
    then true
    else rest

abbrev pub conflict_text : String → String → String
conflict_text name os_model =
    join "" ("Preset already exists for name=" ∷ name ∷ " os_model=" ∷ os_model ∷ [])

abbrev pub conflict : String → String → Error
conflict name os_model = value_error (conflict_text name os_model)

-- What a request gives of a preset.
pub record Payload : Type 0 where
  pub name : String
  pub os_model : String
  pub commands : List String
  pub verify_commands : List String

abbrev pub new_preset : String → String → Payload → ExecutionPreset
new_preset preset_id now payload = record {
  preset_id = preset_id;
  name = payload.name;
  os_model = payload.os_model;
  commands = payload.commands;
  verify_commands = payload.verify_commands;
  created_at = now;
  updated_at = now;
}

unfoldable pub create : String → String → Payload → Presets → Result ExecutionPreset × Presets
create preset_id now payload items =
    let preset = new_preset preset_id now payload in
    if conflicts none payload.name payload.os_model items
    then (err (conflict payload.name payload.os_model), items)
    else (ok preset, items ++ preset ∷ [])

-- `{**item, ...}`: the id and the time of creation stay.
abbrev pub updated : String → Payload → ExecutionPreset → ExecutionPreset
updated now payload item = record item {
  name = payload.name;
  os_model = payload.os_model;
  commands = payload.commands;
  verify_commands = payload.verify_commands;
  updated_at = now;
}

-- The loop of `update`: the first item with the id is replaced.
unfoldable pub write_first : String → String → Payload → Presets → Option ExecutionPreset × Presets
write_first preset_id now payload [] = (none, [])
write_first preset_id now payload (item ∷ items) =
    let (found, rest) = write_first preset_id now payload items in
    if item.preset_id == preset_id
    then (some (updated now payload item), updated now payload item ∷ items)
    else (found, item ∷ rest)

written : Option ExecutionPreset × Presets → Result (Option ExecutionPreset) × Presets
written (found, items) = (ok found, items)

-- `none`: there is no preset with the id.
unfoldable pub update :
    String → String → Payload → Presets → Result (Option ExecutionPreset) × Presets
unfolding written
update preset_id now payload items =
    if conflicts (some preset_id) payload.name payload.os_model items
    then (err (conflict payload.name payload.os_model), items)
    else written (write_first preset_id now payload items)

-- `except PresetConflictError as exc: raise HTTPException(status_code=409, ...)`.
as_conflict : Error → Error
as_conflict (value_error text) = http_error 409 text
as_conflict other = other

create_answer : Result ExecutionPreset × Presets → Result ExecutionPreset × Presets
unfolding as_conflict
create_answer (ok preset, items) = (ok preset, items)
create_answer (err e, items) = (err (as_conflict e), items)

unfoldable pub create_preset :
    String → String → Payload → Presets → Result ExecutionPreset × Presets
unfolding create_answer
create_preset preset_id now payload items = create_answer (create preset_id now payload items)

update_answer : Result (Option ExecutionPreset) × Presets → Result ExecutionPreset × Presets
unfolding as_conflict
update_answer (ok (some preset), items) = (ok preset, items)
update_answer (ok none, items) = (err (http_error 404 "Preset not found"), items)
update_answer (err e, items) = (err (as_conflict e), items)

unfoldable pub update_preset :
    String → String → Payload → Presets → Result ExecutionPreset × Presets
unfolding update_answer
update_preset preset_id now payload items = update_answer (update preset_id now payload items)
