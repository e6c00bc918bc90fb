-- ===== src/Presets/Items.antt =====
-- The items of the preset file as the JSON module gives them, and the preset that the store makes of
-- an item. A JSON value is what the code sees of it: the values of an array by their `str`, and of an
-- object its keys.
use Prim.Native.String.{String}
use nw_edit.Prelude.{Bool, true, false, Option, none, some, List, [], ◌∷◌, ◌≡◌, refl, arith}
use nw_edit.Dict
use nw_edit.Dict.{Dict}
use nw_edit.Dict.Laws.{get-put}
use nw_edit.Domain.Models.{ExecutionPreset}
use nw_edit.Presets.{Payload, new_preset, updated}

-- `scalar is_true` is a number, a Boolean or null; `repr` of the section prints what is no text.
pub data Value : Type 0 where
  text : String → Value
  array object : List String → Value
  scalar : (printed : String) → (is_true : Bool) → Value

abbrev pub Item : Type 0
Item = Dict Value

-- What `json.load` makes of the file: no list, or a list of values, the objects among them as items.
pub data Content : Type 0 where
  no_list : Content
  values : List (Option Item) → Content

items_in : List (Option Item) → List Item
items_in [] = []
items_in (none ∷ rest) = items_in rest
items_in (some item ∷ rest) = item ∷ items_in rest

-- `_read_items`.
unfoldable pub read_items : Content → List Item
unfolding items_in
read_items no_list = []
read_items (values listed) = items_in listed

chars_of : String → List String
chars_of String.[] = []
chars_of (String.◌∷◌ c rest) = String.◌∷◌ c "" ∷ chars_of rest

-- `[str(value) for value in value or []]`; none is a TypeError.
unfoldable pub elements_of : Option Value → Option (List String)
unfolding chars_of
elements_of none = some []
elements_of (some (text s)) = some (chars_of s)
elements_of (some (array elements)) = some elements
elements_of (some (object keys)) = some keys
elements_of (some (scalar printed true)) = none
elements_of (some (scalar printed false)) = some []

-- The item that `create` writes.
unfoldable pub new_item : String → String → Payload → Item
new_item preset_id now payload =
    ("preset_id", text preset_id)
    ∷ ("name", text payload.name)
    ∷ ("os_model", text payload.os_model)
    ∷ ("commands", array payload.commands)
    ∷ ("verify_commands", array payload.verify_commands)
    ∷ ("created_at", text now)
    ∷ ("updated_at", text now)
    ∷ []

-- `{**item, ...}` of `update`.
unfoldable pub updated_item : String → Payload → Item → Item
updated_item now payload item =
    let i1 = Dict.put item "name" (text payload.name) in
    let i2 = Dict.put i1 "os_model" (text payload.os_model) in
    let i3 = Dict.put i2 "commands" (array payload.commands) in
    let i4 = Dict.put i3 "verify_commands" (array payload.verify_commands) in
    Dict.put i4 "updated_at" (text now)

module _ (repr : Value → String) where
  -- `str(item.get(key, ""))`.
  unfoldable pub text_of : Option Value → String
  text_of none = ""
  text_of (some (text s)) = s
  text_of (some (array elements)) = repr (array elements)
  text_of (some (object keys)) = repr (object keys)
  text_of (some (scalar printed is_true)) = repr (scalar printed is_true)

  with_lists : Item → Option (List String) → Option (List String) → Option ExecutionPreset
  unfolding text_of
  with_lists item none verify_commands = none
  with_lists item (some commands) none = none
  with_lists item (some commands) (some verify_commands) = some (record {
    preset_id = text_of (Dict.get item "preset_id");
    name = text_of (Dict.get item "name");
    os_model = text_of (Dict.get item "os_model");
    commands = commands;
    verify_commands = verify_commands;
    created_at = text_of (Dict.get item "created_at");
    updated_at = text_of (Dict.get item "updated_at");
  })

  -- `_from_item`; none is a TypeError.
  unfoldable pub from_item : Item → Option ExecutionPreset
  unfolding with_lists elements_of text_of
  from_item item =
      with_lists item (elements_of (Dict.get item "commands"))
        (elements_of (Dict.get item "verify_commands"))

  -- The fields of a preset that an update leaves.
  kept_fields :
      (item : Item) (commands verify_commands : Option (List String)) (preset : ExecutionPreset)
      → with_lists item commands verify_commands ≡ some preset
      → (text_of (Dict.get item "preset_id") ≡ preset.preset_id)
        × (text_of (Dict.get item "created_at") ≡ preset.created_at)
  unfolding with_lists
  kept_fields item none verify_commands preset h = ground arith
  kept_fields item (some commands) none preset h = ground arith
  kept_fields item (some commands) (some verify_commands) preset h = (ground arith, ground arith)

  updated_read :
      (now : String) (payload : Payload) (item : Item) (preset : ExecutionPreset)
      → text_of (Dict.get item "preset_id") ≡ preset.preset_id
      → text_of (Dict.get item "created_at") ≡ preset.created_at
      → from_item (updated_item now payload item) ≡ some (updated now payload preset)
  unfolding from_item updated_item elements_of text_of with_lists
  updated_read now payload item preset id created = simp (get-put, id, created)

  -- Of an item that can be read, whatever else it holds: what `update` writes in its place is read
  -- back as the updated preset; and what `create` writes is read back as the new preset.
  pub from_item_lem :
      (preset_id now : String) (payload : Payload) (item : Item) (preset : ExecutionPreset)
      → from_item item ≡ some preset
      → (from_item (new_item preset_id now payload) ≡ some (new_preset preset_id now payload))
        × (from_item (updated_item now payload item) ≡ some (updated now payload preset))
  unfolding from_item new_item Dict.get elements_of text_of with_lists
  from_item_lem preset_id now payload item preset h =
      let kept = kept_fields item _ _ preset h in
      (refl, updated_read now payload item preset kept.0 kept.1)
