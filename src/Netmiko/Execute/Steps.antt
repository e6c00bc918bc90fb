-- ===== src/Netmiko/Execute/Steps.antt =====
-- What each step of a conversation leaves.
use nw_edit.Prelude.{
  ◌+◌, String, ◌≡◌, refl, ◌⊎◌, inl, inr, true, false, ◌&&◌, Option, none, some, List, [], ◌∷◌, ◌++◌,
  arith, leb, Bool-cases, Option-cases, join,
}
use nw_edit.Netmiko.Session.{
  Outcome, done, raised, Outcome-cases, Remote, disconnected, command_sent, config_sent, Session,
  Try, after, return, change, ◌>>◌, log,
}
use nw_edit.Netmiko.Output.{mark_failed, check_for_errors, store_verification_diff}
use nw_edit.Netmiko.Output.Trimmed.{store_verification_diff-Keeps}
use nw_edit.Netmiko.Execute.{
  Stop, has_timed_out, verify_from, run_verification_commands, announce_commands, send_commands,
  apply_configuration_commands, pre_verification, post_verification, unless_stopped, timeout_text,
}
use nw_edit.Netmiko.Execute.Course.{
  IsApplied, Going, Post, VerifyPost, Marked, mark_failed-Marked, mark_failed-Halted,
}

module _ (remote : Remote) where
  pub has_timed_out_cases :
      (stage : String) (s : Session)
      → let later = record s { clock = s.clock + 1 } in
        (has_timed_out remote stage s ≡ (done false, later))
        ⊎ ((marked : Session) × (has_timed_out remote stage s ≡ (done true, marked))
            × Marked s marked)
  unfolding has_timed_out
  has_timed_out_cases stage s =
      let later = record s { clock = s.clock + 1 } in
      let message = timeout_text stage in
      let marked =
        mark_failed-Marked "device_timeout" message (join "" ("ERROR: " ∷ message ∷ [])) later in
      elim (Bool-cases (leb (remote.elapsed s.clock) 180000)) [
        | inl e ↦ inl (rw e refl)
        | inr e ↦ inr (
          mark_failed "device_timeout" message (join "" ("ERROR: " ∷ message ∷ [])) later,
          rw e refl,
          record {
            bounded = marked.bounded;
            failure = marked.failure;
            same_calls = marked.same_calls;
          },
        )
      ]

module _ (remote : Remote) (Known : Option String → Type 0) where
  verify_from-Post :
      (stage : String) (outputs cmds : List String) (s : Session)
      → Going Known s
      → VerifyPost Known (verify_from remote stage outputs cmds s)
  unfolding verify_from
  verify_from-Post stage outputs [] s g = g
  verify_from-Post stage outputs (cmd ∷ cmds) s g =
      let asked = record s { clock = s.clock + 1 } in
      let sent = record asked {
        clock = asked.clock + 1 + 1;
        logs = s.logs ++ join "" ("  > " ∷ cmd ∷ []) ∷ [];
        calls = command_sent cmd ∷ s.calls;
      } in
      elim (Bool-cases (remote.has_cancel_event && remote.cancel s.clock)) [
        | inl c ↦ rw c (ground arith)
        | inr c ↦ elim (has_timed_out_cases remote stage asked) [
          | inr (marked, t, m) ↦ rw (c, t) (ground arith)
          | inl t ↦ elim (Outcome-cases (remote.send_command (asked.clock + 1) cmd)) [
            | inr (fault, e) ↦
                rw (c, t, e) (record { bounded = g.bounded; calls_proper = ground arith })
            | inl (output, e) ↦ elim (Option-cases (check_for_errors output)) [
              | inl k ↦
                  rw (c, t, e, k)
                    (verify_from-Post stage (outputs ++ output ∷ []) cmds sent (record {
                      bounded = g.bounded;
                      clean = g.clean;
                      calls_proper = ground arith;
                      still_open = ground arith;
                      applied = g.applied;
                    }))
              | inr (message, k) ↦ elim (Outcome-cases (remote.disconnect sent.clock)) [
                | inr (fault, d) ↦
                    rw (c, t, e, k, d) (record { bounded = g.bounded; calls_proper = ground arith })
                | inl (nothing, d) ↦
                    rw (c, t, e, k, d)
                      (mark_failed-Halted "command_error" message
                        (join "" ("ERROR: " ∷ message ∷ []))
                        (record sent { clock = sent.clock + 1; calls = disconnected ∷ sent.calls })
                        (ground arith) refl)
              ]
            ]
          ]
        ]
      ]

  announce_commands-Post :
      (commands : List String) (s : Session)
      → Going Known s
      → Post Known (announce_commands remote commands s)
  unfolding announce_commands
  announce_commands-Post [] s g = elim (has_timed_out_cases remote "configuration apply" s) [
    | inl t ↦ rw t (ground arith)
    | inr (marked, t, m) ↦ rw t (ground arith)
  ]
  announce_commands-Post (cmd ∷ cmds) s g =
      let asked = record s { clock = s.clock + 1 } in
      let logged = record asked {
        clock = asked.clock + 1;
        logs = s.logs ++ join "" ("  > " ∷ cmd ∷ []) ∷ [];
      } in
      elim (Bool-cases (remote.has_cancel_event && remote.cancel s.clock)) [
        | inl c ↦ rw c (ground arith)
        | inr c ↦ elim (has_timed_out_cases remote "configuration apply" asked) [
          | inr (marked, t, m) ↦ rw (c, t) (ground arith)
          | inl t ↦
              rw (c, t)
                (announce_commands-Post cmds logged (record {
                  bounded = g.bounded;
                  clean = g.clean;
                  calls_proper = g.calls_proper;
                  still_open = g.still_open;
                  applied = g.applied;
                }))
        ]
      ]

  send_commands-Post :
      (commands : List String) (s : Session)
      → Going Known s
      → Post IsApplied (send_commands remote commands s)
  unfolding send_commands
  send_commands-Post commands s g = elim (Outcome-cases (remote.send_config_set s.clock commands)) [
    | inr (fault, e) ↦ rw e (record { bounded = g.bounded; calls_proper = ground arith })
    | inl (output, e) ↦ elim (Option-cases (check_for_errors output)) [
      | inl k ↦
          rw (e, k)
            (record {
              bounded = g.bounded;
              clean = g.clean;
              calls_proper = ground arith;
              still_open = ground arith;
              applied = (output, (refl, k));
            })
      | inr (message, k) ↦
          let sent = record s {
            clock = s.clock + 1;
            calls = config_sent commands ∷ s.calls;
            result = record s.result { apply_output = some output };
            logs = s.logs ++ "Configuration applied" ∷ [];
          } in
          elim (Outcome-cases (remote.disconnect sent.clock)) [
            | inr (fault, d) ↦
                rw (e, k, d) (record { bounded = g.bounded; calls_proper = ground arith })
            | inl (nothing, d) ↦
                rw (e, k, d)
                  (mark_failed-Halted "command_error" message (join "" ("ERROR: " ∷ message ∷ []))
                    (record sent { clock = sent.clock + 1; calls = disconnected ∷ sent.calls })
                    (ground arith) refl)
          ]
    ]
  ]

  unless_stopped-Post :
      (out : Outcome (Option Stop) × Session) (next : Try (Option Stop))
      → Post Known out
      → ((s : Session) → Going Known s → Post IsApplied (next s))
      → Post IsApplied (after (λ stop. unless_stopped remote stop next) out)
  unfolding unless_stopped
  unless_stopped-Post (done none, s) next h then_next = then_next s h
  unless_stopped-Post (done (some stop), s) next h then_next = h
  unless_stopped-Post (raised fault, s) next h then_next = h

  -- A message changes nothing that matters here.
  pub log-Going : (message : String) (s : Session) → Going Known s → Going Known (log message s)
  log-Going message s g = record {
    bounded = g.bounded;
    clean = g.clean;
    calls_proper = g.calls_proper;
    still_open = g.still_open;
    applied = g.applied;
  }

  pub apply_configuration_commands-Post :
      (commands : List String) (s : Session)
      → Going Known s
      → Post IsApplied (apply_configuration_commands remote commands s)
  unfolding apply_configuration_commands
  apply_configuration_commands-Post commands s g =
      let begun = log "Applying configuration commands..." s in
      unless_stopped-Post (announce_commands remote commands begun) (send_commands remote commands)
        (announce_commands-Post commands begun (log-Going _ s g)) (send_commands-Post commands)

  verified-Post :
      (keep : String → Session → Session) (out : Outcome (String × Option Stop) × Session)
      → VerifyPost Known out
      → ((outputs : String) (s : Session) → Going Known s → Going Known (keep outputs s))
      → Post Known (
          after
            (λ verified. elim verified.1 [
              | some stop ↦ return (some stop)
              | none ↦ change (keep verified.0) >> return none
            ])
            out)
  verified-Post keep (done (outputs, none), s) h keeps = keeps outputs s h
  verified-Post keep (done (outputs, some stop), s) h keeps = h
  verified-Post keep (raised fault, s) h keeps = h

  pub pre_verification-Post :
      (cmds : List String) (s : Session)
      → Going Known s
      → Post Known (pre_verification remote cmds s)
  unfolding pre_verification run_verification_commands
  pre_verification-Post [] s g = g
  pre_verification-Post (cmd ∷ cmds) s g =
      let begun = log "Running pre-verification commands..." s in
      verified-Post
        (λ outputs s'.
          log "Pre-verification complete"
            (record s' { result = record s'.result { pre_output = some outputs } }))
        (verify_from remote "pre-verification" [] (cmd ∷ cmds) begun)
        (verify_from-Post "pre-verification" [] (cmd ∷ cmds) begun (log-Going _ s g))
        (λ outputs s' g'. record {
          bounded = g'.bounded;
          clean = g'.clean;
          calls_proper = g'.calls_proper;
          still_open = g'.still_open;
          applied = g'.applied;
        })

  diff-Going : (s : Session) → Going Known s → Going Known (store_verification_diff remote s)
  diff-Going s g =
      let kept = store_verification_diff-Keeps remote s in
      record {
        bounded = rw kept.logs g.bounded;
        clean = rw (kept.status, kept.error, kept.error_code) g.clean;
        calls_proper = rw kept.calls g.calls_proper;
        still_open = rw kept.calls g.still_open;
        applied = (let (pre, apply, post) = kept.outputs in rw apply g.applied);
      }

  pub post_verification-Post :
      (cmds : List String) (s : Session)
      → Going Known s
      → Post Known (post_verification remote cmds s)
  unfolding post_verification run_verification_commands
  post_verification-Post [] s g = g
  post_verification-Post (cmd ∷ cmds) s g =
      let begun = log "Running post-verification commands..." s in
      verified-Post
        (λ outputs s'. store_verification_diff remote (
          log "Post-verification complete"
            (record s' { result = record s'.result { post_output = some outputs } })))
        (verify_from remote "post-verification" [] (cmd ∷ cmds) begun)
        (verify_from-Post "post-verification" [] (cmd ∷ cmds) begun (log-Going _ s g))
        (λ outputs s' g'. diff-Going _ (record {
          bounded = g'.bounded;
          clean = g'.clean;
          calls_proper = g'.calls_proper;
          still_open = g'.still_open;
          applied = g'.applied;
        }))
