-- ===== src/Presets/Requests.antt =====
-- The requests that write presets, and what holds of the presets after any number of them.
use nw_edit.Prelude.{String, ◌≡◌, refl, ◌≢◌, Option, none, some, [], arith}
use nw_edit.Result.{Result, ok, err}
use nw_edit.Domain.Models.{ExecutionPreset}
use nw_edit.Presets.{
  Presets, Payload, create, update, create_answer, update_answer, create_preset, update_preset,
}
use nw_edit.Presets.Unique.{named, with_id, IsUnique, create-IsUnique, update-IsUnique}

-- One request. An id that is made for a new preset is none of those stored, and a URL never holds an
-- empty one.
infix 40 ◌⟿◌ ◌⟿*◌
pub data ◌⟿◌ (items : Presets) : Presets → Type 0 where
  creates :
      (preset_id now : String) (payload : Payload)
      → with_id preset_id items ≡ 0
      → items ⟿ (create_preset preset_id now payload items).1
  updates :
      (preset_id now : String) (payload : Payload)
      → preset_id ≢ ""
      → items ⟿ (update_preset preset_id now payload items).1

pub data ◌⟿*◌ (items : Presets) : Presets → Type 0 where
  here : items ⟿* items
  onward : {middle after : Presets} → items ⟿* middle → middle ⟿ after → items ⟿* after

stored-create_answer : (out : Result ExecutionPreset × Presets) → (create_answer out).1 ≡ out.1
unfolding create_answer
stored-create_answer (ok preset, items) = refl
stored-create_answer (err e, items) = refl

stored-update_answer :
    (out : Result (Option ExecutionPreset) × Presets) → (update_answer out).1 ≡ out.1
unfolding update_answer
stored-update_answer (ok (some preset), items) = refl
stored-update_answer (ok none, items) = refl
stored-update_answer (err e, items) = refl

request-IsUnique : {items after : Presets} → items ⟿ after → IsUnique items → IsUnique after
unfolding create_preset update_preset
request-IsUnique {items} (creates preset_id now payload fresh) v =
    rw (stored-create_answer (create preset_id now payload items))
      (create-IsUnique preset_id now payload items fresh v)
request-IsUnique {items} (updates preset_id now payload given) v =
    rw (stored-update_answer (update preset_id now payload items))
      (update-IsUnique preset_id now payload items given v)

empty-IsUnique : IsUnique []
unfolding named with_id
empty-IsUnique = record { names = λ n m. omega arith; ids = λ k. omega arith }

-- Whatever requests have created and updated presets since there were none, found or not, with a
-- conflict or without: no two presets have one id, and no two have one name and model.
pub reachable-IsUnique : {items : Presets} → [] ⟿* items → IsUnique items
reachable-IsUnique here = empty-IsUnique
reachable-IsUnique (onward r s) = request-IsUnique s (reachable-IsUnique r)
