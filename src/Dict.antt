-- ===== src/Dict.antt =====
-- Python's `dict` with text keys: an association list in insertion order. A write to a key that is
-- there keeps its place, as in Python.
pub mod Laws
use nw_edit.Prelude.{
  String, Bool, Option, none, some, List, [], ◌∷◌, map, ◌==◌, is_some, if◌then◌else◌,
}

abbrev pub Dict {ℓ} : Type ℓ → Type ℓ
Dict V = List (String × V)

module _ {ℓ} {V : Type ℓ} where
  -- d.get(k)
  unfoldable pub get : Dict V → String → Option V
  get [] k = none
  get ((j, v) ∷ d) k = if j == k then some v else get d k

  -- d[k] = v
  unfoldable pub put : Dict V → String → V → Dict V
  put [] k v = (k, v) ∷ []
  put ((j, w) ∷ d) k v = if j == k then (j, v) ∷ d else (j, w) ∷ put d k v

  -- k in d
  abbrev pub contains : Dict V → String → Bool
  contains d k = is_some (get d k)

  abbrev pub keys : Dict V → List String
  keys d = map (λ entry. entry.0) d

  abbrev pub values : Dict V → List V
  values d = map (λ entry. entry.1) d

  -- d.update(e)
  unfoldable pub update : Dict V → Dict V → Dict V
  update d [] = d
  update d ((k, v) ∷ e) = update (put d k v) e
