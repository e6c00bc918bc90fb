-- ===== src/Netmiko/Execute.antt =====
-- The run of configuration commands on one device, with verification before and after.
pub mod Course
pub mod Steps
pub mod Conversation
pub mod Whole
pub mod Sent
use nw_edit.Prelude.{
  ℕ, zero, suc, ◌+◌, String, Bool, true, false, ◌&&◌, Option, none, some, List, [], ◌∷◌, ◌++◌, leb,
  if◌then◌else◌, join, is_empty, ℤ, show_int,
}
use nw_edit.Netmiko.Session.{
  DeviceParams, Fault, timeout, authentication, other, Outcome, done, raised, Remote, Output, Call,
  refused, opened, Session, new_session, Try, return, ◌>>=◌, ◌>>◌, log, change, should_cancel,
  disconnect, send_command, send_config_set, disconnect_quietly,
}
use nw_edit.Netmiko.Output.{
  check_for_errors, finalize_logs, mark_cancelled, mark_failed, store_verification_diff,
}

-- The texts by which a step says that it has ended the run.
pub data Stop : Type 0 where
  cancelled timed_out failed : Stop

-- DEVICE_TIMEOUT in milliseconds.
abbrev pub device_timeout : ℕ
device_timeout = 180000

abbrev timeout_text : String → String
timeout_text stage = join "" ("Device total timeout (180s) exceeded during " ∷ stage ∷ [])

-- `add_log`.
abbrev pub add_log : String → Try (Unit {0})
add_log message = change (log message)

abbrev pub fail_with : (error_code error_message log_message : String) → Try (Unit {0})
fail_with error_code error_message log_message =
    change (mark_failed error_code error_message log_message)

-- `retry_count < max_retries`, by the number of rounds behind this one.
abbrev is_more : ℕ → Bool
is_more zero = false
is_more (suc left) = true

module _ (remote : Remote) where
  -- `has_timed_out(stage)`, which marks the run as failed.
  unfoldable pub has_timed_out : String → Try Bool
  has_timed_out stage s =
      let later = record s { clock = s.clock + 1 } in
      let message = timeout_text stage in
      if leb (remote.elapsed s.clock) device_timeout then (done false, later) else (
        done true,
        mark_failed "device_timeout" message (join "" ("ERROR: " ∷ message ∷ [])) later,
      )

  -- `_run_verification_commands`, with the outputs so far.
  unfoldable pub verify_from : String → List String → List String → Try (String × Option Stop)
  verify_from stage outputs [] = return (join "\n" outputs, none)
  verify_from stage outputs (cmd ∷ cmds) = should_cancel remote >>= λ stop_now. elim stop_now [
    | true ↦ disconnect remote >> return (join "\n" outputs, some cancelled)
    | false ↦ has_timed_out stage >>= λ late. elim late [
      | true ↦ disconnect remote >> return (join "\n" outputs, some timed_out)
      | false ↦
          add_log (join "" ("  > " ∷ cmd ∷ []))
          >> (send_command remote cmd >>= λ output.
              let all = outputs ++ output ∷ [] in
              elim (check_for_errors output) [
                | none ↦ verify_from stage all cmds
                | some message ↦
                    disconnect remote
                    >> (fail_with "command_error" message (join "" ("ERROR: " ∷ message ∷ []))
                        >> return (join "\n" all, some failed))
              ])
    ]
  ]

  unfoldable pub run_verification_commands : String → List String → Try (String × Option Stop)
  run_verification_commands stage cmds = verify_from stage [] cmds

  failed_text : String → String
  failed_text text = join "" ("Connection failed: " ∷ text ∷ [])

  give_up : String → String → Try (Option Stop)
  unfolding failed_text
  give_up error_code text =
      fail_with error_code (failed_text text) (failed_text text) >> return (some failed)

  -- The three `except` clauses of `_connect_with_retry`; `again` is the next round.
  refusal : (again : String → Try (Option Stop)) → (may_retry : Bool) → Fault → Try (Option Stop)
  unfolding give_up
  refusal again true (timeout text) = again text
  refusal again false (timeout text) = give_up "connection_timeout" text
  refusal again may_retry (authentication text) = give_up "authentication_failed" text
  refusal again true (other text) = again text
  refusal again false (other text) = give_up "connection_error" text

  -- The rounds of `_connect_with_retry` that are left, this one included; `none`: connected.
  unfoldable pub connect_from : DeviceParams → Bool → ℕ → Try (Option Stop)
  unfolding refusal failed_text
  connect_from params retry zero = return (some failed)
  connect_from params retry (suc left) = has_timed_out "connection" >>= λ late. elim late [
    | true ↦ return (some timed_out)
    | false ↦
        add_log (join "" ("Connecting to " ∷ params.host ∷ ":" ∷ show_int params.port ∷ "..." ∷ []))
        >> (should_cancel remote >>= λ stop_now. elim stop_now [
          | true ↦ return (some cancelled)
          | false ↦ λ s. elim (remote.connect s.clock params) [
            | done nothing ↦ (
              done none,
              log "Connected successfully"
                  (record s { clock = s.clock + 1; calls = opened ∷ s.calls }),
            )
            | raised fault ↦
                refusal
                  (λ text.
                    add_log (join "" (failed_text text ∷ ". Retrying in 5s..." ∷ []))
                    >> connect_from params retry left)
                  (retry && is_more left) fault
                  (record s { clock = s.clock + 1; calls = refused ∷ s.calls })
          ]
        ])
  ]

  -- The checks before the commands are sent, which log them.
  unfoldable pub announce_commands : List String → Try (Option Stop)
  announce_commands [] = has_timed_out "configuration apply" >>= λ late. elim late [
    | true ↦ disconnect remote >> return (some timed_out)
    | false ↦ return none
  ]
  announce_commands (cmd ∷ cmds) = should_cancel remote >>= λ stop_now. elim stop_now [
    | true ↦ disconnect remote >> return (some cancelled)
    | false ↦ has_timed_out "configuration apply" >>= λ late. elim late [
      | true ↦ disconnect remote >> return (some timed_out)
      | false ↦ add_log (join "" ("  > " ∷ cmd ∷ [])) >> announce_commands cmds
    ]
  ]

  -- `return` with the status, where a step has one.
  pub unless_stopped : Option Stop → Try (Option Stop) → Try (Option Stop)
  unless_stopped none next = next
  unless_stopped (some stop) next = return (some stop)

  unfoldable pub send_commands : List String → Try (Option Stop)
  send_commands commands = send_config_set remote commands >>= λ apply_output.
      change (λ s.
        log "Configuration applied"
          (record s { result = record s.result { apply_output = some apply_output } }))
      >> elim (check_for_errors apply_output) [
        | none ↦ return none
        | some message ↦
            disconnect remote
            >> (fail_with "command_error" message (join "" ("ERROR: " ∷ message ∷ []))
                >> return (some failed))
      ]

  -- `_apply_configuration_commands`.
  unfoldable pub apply_configuration_commands : List String → Try (Option Stop)
  unfolding unless_stopped
  apply_configuration_commands commands =
      add_log "Applying configuration commands..."
      >> (announce_commands commands >>= λ stop. unless_stopped stop (send_commands commands))

  -- The verification before the commands, and behind them with the diff.
  unfoldable pub pre_verification : List String → Try (Option Stop)
  pre_verification [] = return none
  pre_verification (cmd ∷ cmds) =
      add_log "Running pre-verification commands..."
      >> (run_verification_commands "pre-verification" (cmd ∷ cmds) >>= λ verified.
          elim verified.1 [
            | some stop ↦ return (some stop)
            | none ↦
                change (λ s.
                  log "Pre-verification complete"
                    (record s { result = record s.result { pre_output = some verified.0 } }))
                >> return none
          ])

  unfoldable pub post_verification : List String → Try (Option Stop)
  post_verification [] = return none
  post_verification (cmd ∷ cmds) =
      add_log "Running post-verification commands..."
      >> (run_verification_commands "post-verification" (cmd ∷ cmds) >>= λ verified.
          elim verified.1 [
            | some stop ↦ return (some stop)
            | none ↦
                change (λ s. store_verification_diff remote (
                  log "Post-verification complete"
                    (record s { result = record s.result { post_output = some verified.0 } })))
                >> return none
          ])

  -- The body of the `try`, with an open connection.
  unfoldable pub converse : List String → List String → Try (Option Stop)
  unfolding unless_stopped
  converse commands verify_cmds = pre_verification verify_cmds >>= λ stop. unless_stopped stop (
      apply_configuration_commands commands >>= λ stop'. unless_stopped stop' (
        post_verification verify_cmds >>= λ stop''.
        unless_stopped stop'' (disconnect remote >> (add_log "Disconnected" >> return none))))

  -- What the run returns for the answer of a step: the session whose `result` it is.
  stopped : Option Stop → Session → Session
  stopped none s = finalize_logs s
  stopped (some cancelled) s = mark_cancelled s
  stopped (some timed_out) s = s
  stopped (some failed) s = s

  -- The two `except` clauses: what they catch is not raised again.
  unfoldable pub caught : Outcome (Option Stop) × Session → Outcome (Unit {0}) × Session
  unfolding stopped
  caught (done stop, s) = (done tt, stopped stop s)
  caught (raised (timeout text), s) = (
    done tt,
    mark_failed "command_timeout" (join "" ("Execution timeout: " ∷ text ∷ []))
        (join "" ("ERROR: " ∷ text ∷ [])) (disconnect_quietly remote s),
  )
  caught (raised (authentication text), s) = (
    done tt,
    mark_failed "execution_error" (join "" ("Execution error: " ∷ text ∷ []))
        (join "" ("ERROR: " ∷ text ∷ [])) (disconnect_quietly remote s),
  )
  caught (raised (other text), s) = (
    done tt,
    mark_failed "execution_error" (join "" ("Execution error: " ∷ text ∷ []))
        (join "" ("ERROR: " ∷ text ∷ [])) (disconnect_quietly remote s),
  )

  -- The steps before the `try` are outside of it: what they raise is raised.
  connected :
      List String → List String → Outcome (Option Stop) × Session → Outcome (Unit {0}) × Session
  unfolding stopped
  connected commands verify_cmds (done none, s) = caught (converse commands verify_cmds s)
  connected commands verify_cmds (done (some stop), s) = (done tt, stopped (some stop) s)
  connected commands verify_cmds (raised fault, s) = (raised fault, s)

  checked :
      DeviceParams
      → List String
      → List String
      → Bool
      → Bool
      → Outcome (Option Stop) × Session
      → Outcome (Unit {0}) × Session
  unfolding connected stopped
  checked params commands verify_cmds is_canary retry (done none, s) =
      connected commands verify_cmds (connect_from params retry (if is_canary then 1 else 2) s)
  checked params commands verify_cmds is_canary retry (done (some stop), s) =
      (done tt, stopped (some stop) s)
  checked params commands verify_cmds is_canary retry (raised fault, s) = (raised fault, s)

  unfoldable pub pre_connect : Try (Option Stop)
  pre_connect = should_cancel remote >>= λ stop_now. elim stop_now [
    | true ↦ return (some cancelled)
    | false ↦ has_timed_out "pre-connect checks" >>= λ late. elim late [
      | true ↦ return (some timed_out)
      | false ↦ return none
    ]
  ]

  -- `execute_device_commands`: whether it returns or raises, and the session at its end, whose
  -- `result` it returns.
  unfoldable pub execute_device_commands :
      DeviceParams
      → List String
      → List String
      → (is_canary retry : Bool) → Outcome (Unit {0}) × Session
  unfolding checked
  execute_device_commands params commands verify_cmds is_canary retry =
      checked params commands verify_cmds is_canary retry (pre_connect new_session)
