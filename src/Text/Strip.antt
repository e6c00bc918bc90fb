-- ===== src/Text/Strip.antt =====
-- `strip`, `lower`, `in`, `len` and slices.
use Prim.Native.String.{String}
use text.Mathlib.Text.{starts_with}
use nw_edit.Prelude.{ℕ, zero, suc, ◌≤◌, Bool, ◌&&◌, ◌||◌, ◌==◌, if◌then◌else◌, arith}
use nw_edit.Text.Chars.{is_space, lower_char}

unfoldable pub lstrip : String → String
lstrip String.[] = ""
lstrip (String.◌∷◌ c text) =
    let rest = lstrip text in if is_space c then rest else String.◌∷◌ c text

unfoldable pub rstrip : String → String
rstrip String.[] = ""
rstrip (String.◌∷◌ c text) =
    let rest = rstrip text in if is_space c && (rest == "") then "" else String.◌∷◌ c rest

unfoldable pub strip : String → String
strip text = rstrip (lstrip text)

-- `lower`, which changes the ASCII capitals.
unfoldable pub lower : String → String
lower String.[] = ""
lower (String.◌∷◌ c text) = String.◌∷◌ (lower_char c) (lower text)

-- `part in text`.
unfoldable pub contains_text : String → String → Bool
contains_text part String.[] = part == ""
contains_text part (String.◌∷◌ c text) =
    let later = contains_text part text in starts_with (String.◌∷◌ c text) part || later

-- `len(text)`: characters, not bytes.
unfoldable pub size : String → ℕ
size String.[] = 0
size (String.◌∷◌ c text) = suc (size text)

-- `text[:n]`.
unfoldable pub first_chars : ℕ → String → String
first_chars zero text = ""
first_chars (suc n) String.[] = ""
first_chars (suc n) (String.◌∷◌ c text) = String.◌∷◌ c (first_chars n text)

pub size-first_chars : (n : ℕ) (text : String) → size (first_chars n text) ≤ n
unfolding size first_chars
size-first_chars zero text = omega arith
size-first_chars (suc n) String.[] = omega arith
size-first_chars (suc n) (String.◌∷◌ c text) = omega (arith, size-first_chars n text)
