-- ===== src/Dict/Laws.antt =====
-- Reads after writes of a dict.
use nw_edit.Prelude.{String, ◌≡◌, refl, some, [], ◌∷◌, arith, ◌==◌, eq_iff, if◌then◌else◌}
use nw_edit.Dict.{Dict, get, put}

module _ {ℓ} {V : Type ℓ} where
  pub get-put :
      (d : Dict V) (k : String) (v : V) (j : String)
      → get (put d k v) j ≡ (if k == j then some v else get d j)
  unfolding get put
  get-put [] k v j = refl
  get-put ((i, w) ∷ d) k v j = ground (arith, eq_iff i k, eq_iff i j, eq_iff k j, get-put d k v j)

  pub get-put_self : (d : Dict V) (k : String) (v : V) → get (put d k v) k ≡ some v
  get-put_self d k v = ground (arith, get-put d k v k, eq_iff k k)
