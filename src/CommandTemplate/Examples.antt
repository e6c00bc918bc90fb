-- ===== src/CommandTemplate/Examples.antt =====
-- A template with two variables, one of them without a value.
use mathlib.Core.List.{flat_map}
use nw_edit.Prelude.{◌≡◌, refl, [], ◌∷◌}
use nw_edit.Dict
use nw_edit.Text.Chars.{is_space, is_letter, is_digit}
use nw_edit.Text.Strip.{size, first_chars}
use nw_edit.Text.Regex.{matches, is_word, is_name_start}
use nw_edit.CommandTemplate.{pieces, replaced, rendered, missing_of, render_command}

two_variables :
    render_command "vlan {{vlan_1}} name {{  site }}{{2}}" (("vlan_1", "10") ∷ [])
    ≡ ("vlan 10 name {{  site }}{{2}}", "site" ∷ [])
unfolding render_command pieces flat_map matches is_space is_letter is_digit is_word is_name_start
    size first_chars rendered replaced missing_of Dict.get
two_variables = refl
