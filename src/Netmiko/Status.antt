-- ===== src/Netmiko/Status.antt =====
-- Status commands, and the check of a connection.
pub mod Allowed
pub mod Closing
use Prim.Native.Char.{Char}
use nw_edit.Prelude.{
  ℕ, ◌+◌, String, Bool, true, false, not, Option, none, some, List, [], ◌∷◌, ◌++◌, ◌==◌,
  if◌then◌else◌, join, is_empty, filter, any, map,
}
use nw_edit.Result.{Error, value_error, runtime_error, Result, ok, err}
use nw_edit.Text.Chars.{is_space}
use nw_edit.Text.Strip.{strip}
use nw_edit.Text.Lines.{splitlines}
use nw_edit.Text.Regex.{
  Regex, literal, one, many, both, either, perhaps, word_boundary, text_start, search,
}
use nw_edit.Netmiko.Session.{
  DeviceParams, Fault, timeout, authentication, other, Outcome, done, raised, Remote, Call, refused,
  opened, prompted, Session, new_session, Try, return, after, ◌>>=◌, ◌>>◌, call, disconnect,
  send_command, disconnect_quietly,
}
use nw_edit.Netmiko.Output.{check_for_errors}

-- `\s+`.
abbrev spaces : Regex
spaces = both (one is_space) (many is_space)

-- `^\s*...\b`.
abbrev command_pattern : Regex → Regex
command_pattern words = both text_start (both (many is_space) (both words word_boundary))

abbrev configure : Regex
configure = both (literal "conf") (
    both (perhaps (both (literal "ig") (perhaps (literal "ure")))) (
      perhaps (
        both spaces (
          either (literal "t")
            (either (both (literal "term") (perhaps (literal "inal"))) (literal "replace"))))))

abbrev pub dangerous_patterns : List Regex
dangerous_patterns =
    command_pattern configure
    ∷ command_pattern (literal "reload")
    ∷ command_pattern (literal "write")
    ∷ command_pattern (
        both (literal "copy")
          (both spaces (both (literal "running-config") (both spaces (literal "startup-config")))))
    ∷ command_pattern (literal "erase")
    ∷ command_pattern (literal "delete")
    ∷ command_pattern (literal "format")
    ∷ command_pattern (literal "shutdown")
    ∷ []

-- Whether a command is blocked; letter case is ignored.
unfoldable pub is_dangerous : String → Bool
is_dangerous cmd = any (λ pattern_of. search true pattern_of cmd) dangerous_patterns

-- `[cmd.strip() for cmd in commands.splitlines() if cmd.strip()]`.
unfoldable pub command_list : String → List String
command_list commands = filter (λ cmd. not (cmd == "")) (map strip (splitlines commands))

-- `parse_status_commands`.
unfoldable pub parse_status_commands : String → Result (List String)
parse_status_commands commands =
    let listed = command_list commands in
    let blocked = filter is_dangerous listed in
    if is_empty listed
    then err (value_error "Commands cannot be empty")
    else if not (is_empty blocked)
    then err (
        value_error
          (join "" ("Potentially disruptive commands are not allowed: " ∷ join ", " blocked ∷ [])))
    else ok listed

module _ (remote : Remote) where
  -- `ConnectHandler(...)`.
  unfoldable pub connect : DeviceParams → Try (Unit {0})
  connect params s = elim (remote.connect s.clock params) [
    | done nothing ↦ (done tt, record s { clock = s.clock + 1; calls = opened ∷ s.calls })
    | raised fault ↦ (raised fault, record s { clock = s.clock + 1; calls = refused ∷ s.calls })
  ]

  -- The loop over the commands, with the outputs so far. A RuntimeError is an answer.
  unfoldable pub status_from : List String → List String → Try (Result String)
  status_from outputs [] = return (ok (join "\n\n" outputs))
  status_from outputs (cmd ∷ cmds) = send_command remote cmd >>= λ output.
      elim (check_for_errors output) [
        | some message ↦ return (err (runtime_error message))
        | none ↦ status_from (outputs ++ join "" ("$ " ∷ cmd ∷ "\n" ∷ output ∷ []) ∷ []) cmds
      ]

  -- The `except` clauses. An exception of netmiko that is neither of the two is none of the class
  -- RuntimeError.
  fault_error : Fault → Error
  fault_error (authentication text) =
      runtime_error (join "" ("Authentication failed: " ∷ text ∷ []))
  fault_error (timeout text) = runtime_error (join "" ("Command execution timeout: " ∷ text ∷ []))
  fault_error (other text) = runtime_error (join "" ("SSH execution error: " ∷ text ∷ []))

  -- `finally`: the connection, if there is one, is closed.
  closing : Outcome (Result String) × Session → Result String × Session
  unfolding fault_error
  closing (done answer, s) = (answer, disconnect_quietly remote s)
  closing (raised fault, s) = (err (fault_error fault), disconnect_quietly remote s)

  talk : List String → Outcome (Unit {0}) × Session → Result String × Session
  unfolding closing fault_error
  talk cmds (done nothing, s) = closing (status_from [] cmds s)
  talk cmds (raised fault, s) = (err (fault_error fault), s)

  with_list : DeviceParams → Result (List String) → Session → Result String × Session
  unfolding talk
  with_list params (err e) s = (err e, s)
  with_list params (ok cmds) s = talk cmds (connect params s)

  -- `run_status_commands`.
  unfoldable pub run_status_commands : DeviceParams → String → Session → Result String × Session
  unfolding with_list
  run_status_commands params commands = with_list params (parse_status_commands commands)

  validation_error : Fault → String
  validation_error (authentication text) = join "" ("Authentication failed: " ∷ text ∷ [])
  validation_error (timeout text) = join "" ("Connection timeout: " ∷ text ∷ [])
  validation_error (other text) = join "" ("Connection error: " ∷ text ∷ [])

  validated : Outcome (Unit {0}) × Session → (Bool × Option String) × Session
  unfolding validation_error
  validated (done nothing, s) = ((true, none), s)
  validated (raised fault, s) = ((false, some (validation_error fault)), s)

  -- `validate_device_connection`.
  unfoldable pub validate_device_connection :
      DeviceParams → Session → (Bool × Option String) × Session
  unfolding validated connect
  validate_device_connection params s =
      validated
        ((connect params >> (call prompted remote.find_prompt >>= λ prompt. disconnect remote)) s)
