-- ===== src/Netmiko/Status/Allowed.antt =====
-- The status commands that are let through.
use nw_edit.Prelude.{
  String, ◌≡◌, sym, ◌∙◌, subst, ◌≢◌, true, false, not, List, [], ◌∷◌, ◌==◌, is_empty, filter, map,
  All, arith, Bool-cases, inl, inr, is_empty-eq-true,
}
use nw_edit.Result.{ok}
use nw_edit.Text.Strip.{strip}
use nw_edit.Text.Lines.{splitlines}
use nw_edit.Netmiko.Status.{is_dangerous, command_list, parse_status_commands}

-- A filter that keeps nothing.
filter-none :
    (xs : List String) → filter is_dangerous xs ≡ [] → All (λ cmd. is_dangerous cmd ≡ false) xs
filter-none [] h = tt
filter-none (x ∷ xs) h = elim (Bool-cases (is_dangerous x)) [
  | inl e ↦ absurd (ground arith)
  | inr e ↦ (e, filter-none xs (ground arith))
]

passed :
    (commands : String) (listed : List String)
    → parse_status_commands commands ≡ ok listed
    → (command_list commands ≡ listed)
      × (is_empty (command_list commands) ≡ false)
      × (is_empty (filter is_dangerous (command_list commands)) ≡ true)
unfolding parse_status_commands
passed commands listed h = ground arith

-- Commands are let through only if there is one, none of them is dangerous, and they are all the
-- lines of the text that are not blank, stripped and in order.
pub parse_status_commands_lem :
    (commands : String) (listed : List String)
    → parse_status_commands commands ≡ ok listed
    → (listed ≡ filter (λ cmd. not (cmd == "")) (map strip (splitlines commands)))
      × (listed ≢ [])
      × All (λ cmd. is_dangerous cmd ≡ false) listed
unfolding command_list
parse_status_commands_lem commands listed h =
    let (same, some_command, allowed) = passed commands listed h in
    (
      sym same,
      λ none_left. (let no_command : command_list commands ≡ [] = same ∙ none_left in cc),
      subst (All (λ cmd. is_dangerous cmd ≡ false)) same (
          filter-none (command_list commands)
            (is_empty-eq-true (filter is_dangerous (command_list commands)) allowed)),
    )
