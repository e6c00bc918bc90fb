-- ===== src/Netmiko/Examples.antt =====
-- A device that answers, and one that breaks off while it is configured.
use nw_edit.Prelude.{
  String, ◌≡◌, ◌≢◌, refl, true, false, not, ◌==◌, List, [], ◌∷◌, pos, All, filter, map,
}
use nw_edit.Result.{ok}
use mathlib.Core.List.{flat_map}
use nw_edit.Text.Chars.{is_space, is_letter, is_digit, is_upper, is_line_end, lower_char}
use nw_edit.Text.Strip.{strip, lstrip, rstrip}
use nw_edit.Text.Regex.{search, matches, is_word}
use nw_edit.Text.Lines.{splitlines, ended_lines}
use nw_edit.Netmiko.Session.{DeviceParams, timeout, done, raised, Remote, new_session}
use nw_edit.Netmiko.Execute.{execute_device_commands}
use nw_edit.Netmiko.Execute.Whole.{IsOver, execute_device_commands-IsOver}
use nw_edit.Netmiko.Execute.Sent.Once.{SentAtMostOnce, execute_device_commands-SentAtMostOnce}
use nw_edit.Netmiko.Status.{is_dangerous, command_list, parse_status_commands, run_status_commands}
use nw_edit.Netmiko.Status.Allowed.{parse_status_commands_lem}
use nw_edit.Netmiko.Status.Closing.{IsClosed, run_status_commands-IsClosed}

abbrev answering : Remote
answering = record {
  has_cancel_event = false;
  cancel = λ n. false;
  elapsed = λ n. n;
  connect = λ n params. done tt;
  find_prompt = λ n. done "r1#";
  send_command = λ n command. done command;
  send_config_set = λ n commands. raised (timeout "no answer");
  disconnect = λ n. done tt;
  unified_diff = λ pre post. post;
}

abbrev router : DeviceParams
router = record {
  host = "10.0.0.1";
  port = pos 22;
  device_type = "cisco_ios";
  username = "admin";
  password = "pw";
}

abbrev vlan : List String
vlan = "vlan 10" ∷ []

abbrev shown : List String
shown = "show vlan" ∷ []

execute_device_commands-IsOver_example :
    ((execute_device_commands answering router vlan shown false true).0 ≡ done tt)
    × IsOver answering (execute_device_commands answering router vlan shown false true).1
execute_device_commands-IsOver_example =
    execute_device_commands-IsOver answering router vlan shown false true

execute_device_commands-SentAtMostOnce_example :
    SentAtMostOnce vlan shown (execute_device_commands answering router vlan shown false true).1
execute_device_commands-SentAtMostOnce_example =
    execute_device_commands-SentAtMostOnce answering vlan shown router false true

run_status_commands-IsClosed_example :
    IsClosed (run_status_commands answering router "show version" new_session)
run_status_commands-IsClosed_example =
    run_status_commands-IsClosed answering router "show version" new_session refl refl

blocked :
    (is_dangerous "  Reload in 5" ≡ true)
    × (is_dangerous "config  t" ≡ true)
    × (is_dangerous "show reload" ≡ false)
unfolding is_dangerous search matches flat_map is_space is_letter is_digit is_upper is_word
    lower_char
blocked = (refl, refl, refl)

two_shown : parse_status_commands "show vlan\n show ip" ≡ ok ("show vlan" ∷ "show ip" ∷ [])
unfolding parse_status_commands command_list is_dangerous search matches flat_map is_space is_letter
    is_digit is_upper is_word lower_char ended_lines is_line_end strip lstrip rstrip
two_shown = refl

parse_status_commands_lem_example :
    let listed : List String = "show vlan" ∷ "show ip" ∷ [] in
    (listed ≡ filter (λ cmd. not (cmd == "")) (map strip (splitlines "show vlan\n show ip")))
    × (listed ≢ [])
    × All (λ cmd. is_dangerous cmd ≡ false) listed
parse_status_commands_lem_example =
    parse_status_commands_lem "show vlan\n show ip" ("show vlan" ∷ "show ip" ∷ []) two_shown
