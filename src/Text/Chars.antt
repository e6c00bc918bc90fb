-- ===== src/Text/Chars.antt =====
-- Classes of characters. White space is that of `str.isspace`; letters and digits are the ASCII
-- ones.
use Prim.Native.Char.{Char, code}
use text.Mathlib.Text.{char_at?}
use nw_edit.Prelude.{ℕ, ◌-◌, Bool, ◌&&◌, ◌||◌, leb, or_default, if◌then◌else◌}

abbrev between : ℕ → ℕ → Char → Bool
between low high c = leb low (code c) && leb (code c) high

abbrev pub is : ℕ → Char → Bool
is n c = leb n (code c) && leb (code c) n

unfoldable pub is_space : Char → Bool
is_space c =
    between 9 13 c
    || between 28 32 c
    || is 133 c
    || is 160 c
    || is 5760 c
    || between 8192 8202 c
    || between 8232 8233 c
    || is 8239 c
    || is 8287 c
    || is 12288 c

unfoldable pub is_digit : Char → Bool
is_digit c = between 48 57 c

unfoldable pub is_upper : Char → Bool
is_upper c = between 65 90 c

unfoldable pub is_letter : Char → Bool
is_letter c = between 65 90 c || between 97 122 c

-- The line boundaries of `str.splitlines`.
unfoldable pub is_line_end : Char → Bool
is_line_end c = between 10 13 c || between 28 30 c || is 133 c || between 8232 8233 c

unfoldable pub lower_char : Char → Char
unfolding is_upper
lower_char c =
    if is_upper c then or_default (char_at? "abcdefghijklmnopqrstuvwxyz" (code c - 65)) c else c
