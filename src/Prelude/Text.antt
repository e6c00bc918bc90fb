-- ===== src/Prelude/Text.antt =====
-- Texts: joining, and the decimal print of a number.
use Prim.Native.Nat.{Ordering, ℕ, zero, suc, ◌/◌, ◌%◌}
use Prim.Native.String.{String}
use Prim.Native.String
use Prim.Native.String.{compare}
use mathlib.Core.Path.{◌≡◌, refl}
use mathlib.Core.List.{List, [], ◌∷◌}
use nw_edit.Prelude.Tests.{ltb, if◌then◌else◌}

-- `separator.join(parts)`; with the separator "" also an f-string.
unfoldable pub join : String → List String → String
join separator [] = ""
join separator (part ∷ []) = part
join separator (part ∷ parts) = String.◌++◌ part (String.◌++◌ separator (join separator parts))

unfoldable pub digit : ℕ → String
digit zero = "0"
digit (suc zero) = "1"
digit (suc (suc zero)) = "2"
digit (suc (suc (suc zero))) = "3"
digit (suc (suc (suc (suc zero)))) = "4"
digit (suc (suc (suc (suc (suc zero))))) = "5"
digit (suc (suc (suc (suc (suc (suc zero)))))) = "6"
digit (suc (suc (suc (suc (suc (suc (suc zero))))))) = "7"
digit (suc (suc (suc (suc (suc (suc (suc (suc zero)))))))) = "8"
digit _ = "9"

-- A number has at most as many digits as its successor has units, so `suc n` is fuel enough.
unfoldable pub show_from : ℕ → ℕ → String → String
show_from zero n rest = rest
show_from (suc fuel) n rest =
    let more = show_from fuel (n / 10) (String.◌++◌ (digit (n % 10)) rest) in
    if ltb n 10 then String.◌++◌ (digit n) rest else more

-- `str(n)` of a natural number.
unfoldable pub show : ℕ → String
unfolding show_from digit
show n = show_from (suc n) n ""

-- A Python int: `negsuc n` is -(n + 1).
pub data ℤ : Type 0 where
  pos : ℕ → ℤ
  negsuc : ℕ → ℤ

-- `str(n)` of an int.
unfoldable pub show_int : ℤ → String
unfolding show
show_int (pos n) = show n
show_int (negsuc n) = String.◌++◌ "-" (show (suc n))

show_port : show 65535 ≡ "65535"
unfolding show
show_port = refl

-- A text that is put in its place in a sorted list, unless it is there.
unfoldable pub insert_sorted : String → List String → List String
insert_sorted a [] = a ∷ []
insert_sorted a (b ∷ bs) =
    let rest = insert_sorted a bs in
    elim (compare a b) [ Ordering.lt ↦ a ∷ b ∷ bs | Ordering.eq ↦ b ∷ bs | Ordering.gt ↦ b ∷ rest ]

-- `sorted(set(texts))`.
unfoldable pub sorted_set : List String → List String
sorted_set [] = []
sorted_set (a ∷ rest) = insert_sorted a (sorted_set rest)
