-- ===== src/Presets/Unique.antt =====
-- No two presets share an id, or a name and a model.
use nw_edit.Prelude.{
  ℕ, ◌+◌, ◌≤◌, String, ◌≡◌, refl, ◌≢◌, true, false, ◌&&◌, none, some, [], ◌∷◌, ◌++◌, arith, ◌==◌,
  eq_iff, if◌then◌else◌, Bool-cases, inl, inr, ◌⊎◌,
}
use nw_edit.Result.{ok, err, http_error}
use nw_edit.Domain.Models.{ExecutionPreset}
use nw_edit.Presets.{
  Presets, conflicts, Payload, new_preset, conflict_text, create, write_first, written, update,
  create_preset,
}

-- How many presets have the name and the model, and how many have the id.
unfoldable pub named : String → String → Presets → ℕ
named name os_model [] = 0
named name os_model (item ∷ items) =
    let rest = named name os_model items in
    if (item.name == name) && (item.os_model == os_model) then rest + 1 else rest

unfoldable pub with_id : String → Presets → ℕ
with_id preset_id [] = 0
with_id preset_id (item ∷ items) =
    let rest = with_id preset_id items in if item.preset_id == preset_id then rest + 1 else rest

pub record IsUnique (items : Presets) : Type 0 where
  pub names : (name os_model : String) → named name os_model items ≤ 1
  pub ids : (preset_id : String) → with_id preset_id items ≤ 1

conflicts-none :
    (name os_model : String) (items : Presets)
    → conflicts none name os_model items ≡ false
    → named name os_model items ≡ 0
unfolding conflicts named
conflicts-none name os_model [] h = refl
conflicts-none name os_model (item ∷ items) h = ground (arith, conflicts-none name os_model items)

named-append :
    (name os_model : String) (items : Presets) (preset : ExecutionPreset)
    → named name os_model (items ++ preset ∷ [])
      ≡ named name os_model items + named name os_model (preset ∷ [])
unfolding named
named-append name os_model [] preset = ground arith
named-append name os_model (item ∷ items) preset =
    ground (arith, named-append name os_model items preset)

with_id-append :
    (preset_id : String) (items : Presets) (preset : ExecutionPreset)
    → with_id preset_id (items ++ preset ∷ [])
      ≡ with_id preset_id items + with_id preset_id (preset ∷ [])
unfolding with_id
with_id-append preset_id [] preset = ground arith
with_id-append preset_id (item ∷ items) preset =
    ground (arith, with_id-append preset_id items preset)

-- Creating a preset under a fresh id keeps ids and names with models unique.
pub create-IsUnique :
    (preset_id now : String) (payload : Payload) (items : Presets)
    → with_id preset_id items ≡ 0
    → IsUnique items
    → IsUnique (create preset_id now payload items).1
unfolding create named with_id
create-IsUnique preset_id now payload items fresh v =
    elim (Bool-cases (conflicts none payload.name payload.os_model items)) [
      | inl e ↦ rw e v
      | inr e ↦ rw e (record {
        names = λ n m. ground (
          arith,
          named-append n m items (new_preset preset_id now payload),
          conflicts-none payload.name payload.os_model items e,
          v.names n m,
          eq_iff payload.name n,
          eq_iff payload.os_model m,
        );
        ids = λ k. ground (
          arith,
          with_id-append k items (new_preset preset_id now payload),
          fresh,
          v.ids k,
          eq_iff preset_id k,
        );
      })
    ]

module _ (preset_id now : String) (payload : Payload) where
  with_id-write_first :
      (k : String) (items : Presets)
      → with_id k (write_first preset_id now payload items).1 ≡ with_id k items
  unfolding with_id write_first
  with_id-write_first k [] = refl
  with_id-write_first k (item ∷ items) = ground (arith, with_id-write_first k items)

  -- Where the id does not occur, a conflict is looked for among all items.
  named-none :
      (items : Presets)
      → with_id preset_id items ≡ 0
      → conflicts (some preset_id) payload.name payload.os_model items ≡ false
      → named payload.name payload.os_model items ≡ 0
  unfolding with_id conflicts named
  named-none [] absent h = refl
  named-none (item ∷ items) absent h = ground (arith, named-none items)

  -- After the write the new name and model occur at most once, and others no more often.
  named-write_first :
      (items : Presets)
      → with_id preset_id items ≤ 1
      → preset_id ≢ ""
      → conflicts (some preset_id) payload.name payload.os_model items ≡ false
      → named payload.name payload.os_model (write_first preset_id now payload items).1 ≤ 1
  unfolding with_id conflicts named write_first
  named-write_first [] once given h = omega arith
  named-write_first (item ∷ items) once given h = ground (
    arith,
    named-write_first items,
    named-none items,
    eq_iff preset_id "",
    eq_iff item.preset_id preset_id,
  )

  named-write_first-le :
      (n m : String) (items : Presets)
      → ((payload.name == n) && (payload.os_model == m)) ≡ false
      → named n m (write_first preset_id now payload items).1 ≤ named n m items
  unfolding named write_first
  named-write_first-le n m [] other = omega arith
  named-write_first-le n m (item ∷ items) other =
      ground (arith, named-write_first-le n m items other)

  write_first-IsUnique :
      (items : Presets)
      → preset_id ≢ ""
      → conflicts (some preset_id) payload.name payload.os_model items ≡ false
      → IsUnique items
      → IsUnique (write_first preset_id now payload items).1
  write_first-IsUnique items given free v = record {
    names = λ n m. elim (Bool-cases ((payload.name == n) && (payload.os_model == m))) [
      | inl same ↦ ground (
        arith,
        same,
        named-write_first items (v.ids preset_id) given free,
        eq_iff payload.name n,
        eq_iff payload.os_model m,
      )
      | inr other ↦ omega (arith, named-write_first-le n m items other, v.names n m)
    ];
    ids = λ k. rw with_id-write_first (v.ids k);
  }

-- Updating a preset, found or not, with a conflict or without, keeps ids and names with models
-- unique, if the id that is asked for is not empty.
pub update-IsUnique :
    (preset_id now : String) (payload : Payload) (items : Presets)
    → preset_id ≢ ""
    → IsUnique items
    → IsUnique (update preset_id now payload items).1
unfolding update written
update-IsUnique preset_id now payload items given v =
    elim (Bool-cases (conflicts (some preset_id) payload.name payload.os_model items)) [
      | inl e ↦ rw e v
      | inr e ↦ rw e (write_first-IsUnique preset_id now payload items given e v)
    ]

conflicts-some :
    (name os_model : String) (items : Presets)
    → conflicts none name os_model items ≡ true
    → 1 ≤ named name os_model items
unfolding conflicts named
conflicts-some name os_model [] h = cc
conflicts-some name os_model (item ∷ items) h = ground (arith, conflicts-some name os_model items)

-- The endpoint answers 409 and changes nothing exactly when a preset has the name and the model;
-- otherwise it answers with the preset that was asked for, which is then the last one stored.
pub create_preset_lem :
    (preset_id now : String) (payload : Payload) (items : Presets)
    → ((1 ≤ named payload.name payload.os_model items)
        × (create_preset preset_id now payload items
            ≡ (err (http_error 409 (conflict_text payload.name payload.os_model)), items)))
      ⊎ ((named payload.name payload.os_model items ≡ 0)
          × (create_preset preset_id now payload items ≡ (
            ok (new_preset preset_id now payload),
            items ++ new_preset preset_id now payload ∷ [],
          )))
unfolding create_preset create
create_preset_lem preset_id now payload items =
    elim (Bool-cases (conflicts none payload.name payload.os_model items)) [
      | inl e ↦ inl (conflicts-some payload.name payload.os_model items e, rw e refl)
      | inr e ↦ inr (conflicts-none payload.name payload.os_model items e, rw e refl)
    ]
