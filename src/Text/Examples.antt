-- ===== src/Text/Examples.antt =====
-- The methods at concrete texts.
use nw_edit.Prelude.{◌≡◌, refl, true, [], ◌∷◌}
use nw_edit.Text.Chars.{is_space, is_line_end, lower_char}
use nw_edit.Text.Strip.{strip, lstrip, rstrip, lower, contains_text}
use nw_edit.Text.Lines.{splitlines, ended_lines}
use nw_edit.Text.Split.{split}

stripped : strip " \tAll \n" ≡ "All"
unfolding strip lstrip rstrip is_space
stripped = refl

lowered : lower "All-7" ≡ "all-7"
unfolding lower lower_char
lowered = refl

lined : splitlines "a\r\nb\n\nc" ≡ "a" ∷ "b" ∷ "" ∷ "c" ∷ []
unfolding ended_lines is_line_end
lined = refl

parted : split ";" "a;;b" ≡ "a" ∷ "" ∷ "b" ∷ []
unfolding split
parted = refl

within : contains_text "valid in" "% Invalid input" ≡ true
unfolding contains_text
within = refl
