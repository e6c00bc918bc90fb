-- ===== src/Presets/Examples.antt =====
-- A store with one preset.
use nw_edit.Prelude.{◌≤◌, String, ◌≡◌, refl, ◌≢◌, ◌⊎◌, [], ◌∷◌, ◌++◌, arith, eq_iff}
use nw_edit.Result.{ok, err, http_error}
use nw_edit.Prelude.{some}
use nw_edit.Dict
use nw_edit.Domain.Models.{ExecutionPreset}
use nw_edit.Presets.Items.{
  Value, Item, text, text_of, elements_of, new_item, updated_item, from_item, from_item_lem,
}
use nw_edit.Presets.{
  updated, Presets, Payload, new_preset, create_preset, update_preset, conflict_text,
}
use nw_edit.Presets.Unique.{named, with_id, IsUnique, create_preset_lem}
use nw_edit.Presets.Requests.{here, onward, creates, updates, reachable-IsUnique}

abbrev payload : Payload
payload = record { name = "base"; os_model = "ios"; commands = []; verify_commands = [] }

nothing_stored : with_id "p1" [] ≡ 0
unfolding with_id
nothing_stored = refl

given : ◌≢◌ {A = String} "p1" ""
given h = ground (arith, eq_iff "p1" "")

reachable-IsUnique_example :
    IsUnique (update_preset "p1" "later" payload (create_preset "p1" "now" payload []).1).1
reachable-IsUnique_example = reachable-IsUnique (
    onward (onward here (creates "p1" "now" payload nothing_stored))
      (updates "p1" "later" payload given))

abbrev stored : Presets
stored = new_preset "p1" "now" payload ∷ []

create_preset_lem_example :
    ((1 ≤ named "base" "ios" stored)
      × (create_preset "p2" "now" payload stored
          ≡ (err (http_error 409 (conflict_text "base" "ios")), stored)))
    ⊎ ((named "base" "ios" stored ≡ 0)
        × (create_preset "p2" "now" payload stored
            ≡ (ok (new_preset "p2" "now" payload), stored ++ new_preset "p2" "now" payload ∷ [])))
create_preset_lem_example = create_preset_lem "p2" "now" payload stored

-- An item of another program, with a field of its own and without commands.
abbrev foreign : Item
foreign = ("preset_id", text "p9") ∷ ("color", text "red") ∷ ("name", text "old") ∷ []

abbrev printed : Value → String
printed value = "?"

abbrev read_foreign : ExecutionPreset
read_foreign = record {
  preset_id = "p9";
  name = "old";
  os_model = "";
  commands = [];
  verify_commands = [];
  created_at = "";
  updated_at = "";
}

foreign_read : from_item printed foreign ≡ some read_foreign
unfolding from_item text_of elements_of Dict.get
foreign_read = refl

from_item_lem_example :
    (from_item printed (new_item "p1" "now" payload) ≡ some (new_preset "p1" "now" payload))
    × (from_item printed (updated_item "now" payload foreign)
        ≡ some (updated "now" payload read_foreign))
from_item_lem_example = from_item_lem printed "p1" "now" payload foreign read_foreign foreign_read
