-- ===== src/Netmiko/Execute/Sent/Once.antt =====
-- The configuration commands are sent at most once, and once where they have an output.
use nw_edit.Prelude.{
  String, ◌≡◌, refl, ap, ◌⊎◌, inl, inr, Bool, true, ◌&&◌, Option, none, some, List, [], ◌∷◌, All,
  any, ◌==◌, eq_iff, arith, if◌then◌else◌, join,
}
use nw_edit.Netmiko.Session.{
  DeviceParams, timeout, authentication, other, Outcome, done, raised, Remote, Session, new_session,
  Try, after, return, ◌>>◌, log, send_config_set, disconnect_quietly,
}
use nw_edit.Netmiko.Output.{check_for_errors, finalize_logs, mark_cancelled}
use nw_edit.Netmiko.Execute.{
  add_log, Stop, cancelled, timed_out, failed, has_timed_out, connect_from, announce_commands,
  send_commands, apply_configuration_commands, pre_verification, post_verification, converse,
  unless_stopped, caught, connected, checked, stopped, pre_connect, execute_device_commands,
}
use nw_edit.Netmiko.Execute.Sent.{
  configs, Sent, after-IsSent, IsSent-same, mark_failed-IsSent, has_timed_out-IsSent, choose-IsSent,
  found-IsSent, closing-IsSent, failing-IsSent,
}
use nw_edit.Netmiko.Execute.Sent.Steps.{
  connect_from-IsSent, announce_commands-IsSent, pre_verification-IsSent, post_verification-IsSent,
  unless_stopped-IsSent,
}

-- Before the configuration, behind it, and in either case.
abbrev pub Unsent : List String → Session → Type 0
Unsent verify = Sent verify (λ sent. sent ≡ [])

abbrev pub SentOnce : List String → List String → Session → Type 0
SentOnce commands verify = Sent verify (λ sent. sent ≡ commands ∷ [])

abbrev pub SentAtMostOnce : List String → List String → Session → Type 0
SentAtMostOnce commands verify = Sent verify (λ sent. (sent ≡ []) ⊎ (sent ≡ commands ∷ []))

module _ (remote : Remote) (commands verify : List String) where
  abbrev AtMost : List (List String) → Type 0
  AtMost sent = (sent ≡ []) ⊎ (sent ≡ commands ∷ [])

  Unsent-AtMost : (s : Session) → Unsent verify s → SentAtMostOnce commands verify s
  Unsent-AtMost s h = record { allowed = inl h.allowed; listed = h.listed; unsent = h.unsent }

  SentOnce-AtMost : (s : Session) → SentOnce commands verify s → SentAtMostOnce commands verify s
  SentOnce-AtMost s h = record { allowed = inr h.allowed; listed = h.listed; unsent = h.unsent }

  send_commands-SentOnce :
      (s : Session) → Unsent verify s → SentOnce commands verify (send_commands remote commands s).1
  unfolding send_commands
  send_commands-SentOnce s h =
      after-IsSent remote verify (λ sent. sent ≡ commands ∷ []) _
        (send_config_set remote commands s)
        (record {
          allowed = ap (λ sent. commands ∷ sent) h.allowed;
          listed = (refl, h.listed);
          unsent = λ e. cc;
        })
        (λ output s1 h1.
          found-IsSent remote verify (λ sent. sent ≡ commands ∷ []) (check_for_errors output) _ _
            (λ s' h'. h')
            (λ message.
              failing-IsSent remote verify (λ sent. sent ≡ commands ∷ []) "command_error" message
                (join "" ("ERROR: " ∷ message ∷ [])) (some failed))
            (log "Configuration applied"
              (record s1 { result = record s1.result { apply_output = some output } }))
            (record {
              allowed = h1.allowed;
              listed = h1.listed;
              unsent = λ e. cc (rw h1.allowed at e);
            }))

  after-SentAtMostOnce :
      (next : Option Stop → Try (Option Stop)) (out : Outcome (Option Stop) × Session)
      → Unsent verify out.1
      → ((stop : Option Stop) (s : Session)
          → Unsent verify s
          → SentAtMostOnce commands verify (next stop s).1)
      → SentAtMostOnce commands verify (after next out).1
  after-SentAtMostOnce next (done a, s) h then_next = then_next a s h
  after-SentAtMostOnce next (raised fault, s) h then_next = Unsent-AtMost s h

  unless_stopped-SentAtMostOnce :
      (then_this : Try (Option Stop))
      → ((s : Session) → Unsent verify s → SentAtMostOnce commands verify (then_this s).1)
      → (stop : Option Stop) (s : Session) → Unsent verify s
      → SentAtMostOnce commands verify (unless_stopped remote stop then_this s).1
  unfolding unless_stopped
  unless_stopped-SentAtMostOnce then_this keeps none s h = keeps s h
  unless_stopped-SentAtMostOnce then_this keeps (some stop) s h = Unsent-AtMost s h

  apply_configuration_commands-SentAtMostOnce :
      (s : Session)
      → Unsent verify s
      → SentAtMostOnce commands verify (apply_configuration_commands remote commands s).1
  unfolding apply_configuration_commands
  apply_configuration_commands-SentAtMostOnce s h =
      let begun = log "Applying configuration commands..." s in
      after-SentAtMostOnce _ (announce_commands remote commands begun)
        (announce_commands-IsSent remote verify (λ sent. sent ≡ []) commands begun
          (IsSent-same remote verify (λ sent. sent ≡ []) s begun refl refl h))
        (unless_stopped-SentAtMostOnce (send_commands remote commands)
          (λ s' h'. SentOnce-AtMost _ (send_commands-SentOnce s' h')))

  any_self : (x : String) (xs : List String) → any (λ y. y == x) (x ∷ xs) ≡ true
  any_self x xs = ground (arith, eq_iff x x)

  listed_part :
      (cmds : List String)
      → ((cmd : String) → any (λ y. y == cmd) cmds ≡ true → any (λ y. y == cmd) verify ≡ true)
      → All (λ cmd. any (λ y. y == cmd) verify ≡ true) cmds
  listed_part [] inside = tt
  listed_part (cmd ∷ cmds) inside =
      (inside cmd (any_self cmd cmds), listed_part cmds (λ other h. inside other (ground arith)))

  each_listed : All (λ cmd. any (λ y. y == cmd) verify ≡ true) verify
  each_listed = listed_part verify (λ cmd h. h)

  converse-SentAtMostOnce :
      (s : Session)
      → Unsent verify s
      → SentAtMostOnce commands verify (converse remote commands verify s).1
  unfolding converse
  converse-SentAtMostOnce s h =
      after-SentAtMostOnce _ (pre_verification remote verify s)
        (pre_verification-IsSent remote verify (λ sent. sent ≡ []) verify each_listed s h)
        (unless_stopped-SentAtMostOnce _ (λ s1 h1.
          after-IsSent remote verify AtMost _ (apply_configuration_commands remote commands s1)
            (apply_configuration_commands-SentAtMostOnce s1 h1)
            (λ stop. unless_stopped-IsSent remote verify AtMost stop _ (λ s2 h2.
              after-IsSent remote verify AtMost _ (post_verification remote verify s2)
                (post_verification-IsSent remote verify AtMost verify each_listed s2 h2)
                (λ stop'. unless_stopped-IsSent remote verify AtMost stop' _ (
                  closing-IsSent remote verify AtMost (add_log "Disconnected" >> return none)
                    (λ s3 h3. IsSent-same remote verify AtMost s3 _ refl refl h3)))))))

  stopped-SentAtMostOnce :
      (stop : Option Stop) (s : Session)
      → SentAtMostOnce commands verify s
      → SentAtMostOnce commands verify (stopped remote stop s)
  unfolding stopped finalize_logs mark_cancelled
  stopped-SentAtMostOnce none s h = IsSent-same remote verify AtMost s _ refl refl h
  stopped-SentAtMostOnce (some cancelled) s h = IsSent-same remote verify AtMost s _ refl refl h
  stopped-SentAtMostOnce (some timed_out) s h = h
  stopped-SentAtMostOnce (some failed) s h = h

  disconnected-SentAtMostOnce :
      (s : Session)
      → SentAtMostOnce commands verify s
      → SentAtMostOnce commands verify (disconnect_quietly remote s)
  disconnected-SentAtMostOnce s h = record {
    allowed = h.allowed;
    listed = (refl, h.listed);
    unsent = h.unsent;
  }

  caught-SentAtMostOnce :
      (out : Outcome (Option Stop) × Session)
      → SentAtMostOnce commands verify out.1
      → SentAtMostOnce commands verify (caught remote out).1
  unfolding caught
  caught-SentAtMostOnce (done stop, s) h = stopped-SentAtMostOnce stop s h
  caught-SentAtMostOnce (raised (timeout text), s) h =
      mark_failed-IsSent remote verify AtMost _ _ _ _ (disconnected-SentAtMostOnce s h)
  caught-SentAtMostOnce (raised (authentication text), s) h =
      mark_failed-IsSent remote verify AtMost _ _ _ _ (disconnected-SentAtMostOnce s h)
  caught-SentAtMostOnce (raised (other text), s) h =
      mark_failed-IsSent remote verify AtMost _ _ _ _ (disconnected-SentAtMostOnce s h)

  connected-SentAtMostOnce :
      (out : Outcome (Option Stop) × Session)
      → Unsent verify out.1
      → SentAtMostOnce commands verify (connected remote commands verify out).1
  unfolding connected
  connected-SentAtMostOnce (done none, s) h =
      caught-SentAtMostOnce (converse remote commands verify s) (converse-SentAtMostOnce s h)
  connected-SentAtMostOnce (done (some stop), s) h =
      stopped-SentAtMostOnce (some stop) s (Unsent-AtMost s h)
  connected-SentAtMostOnce (raised fault, s) h = Unsent-AtMost s h

  checked-SentAtMostOnce :
      (params : DeviceParams) (is_canary retry : Bool) (out : Outcome (Option Stop) × Session)
      → Unsent verify out.1
      → SentAtMostOnce commands verify (checked remote params commands verify is_canary retry out).1
  unfolding checked
  checked-SentAtMostOnce params is_canary retry (done none, s) h =
      let rounds = if is_canary then 1 else 2 in
      connected-SentAtMostOnce (connect_from remote params retry rounds s)
        (connect_from-IsSent remote verify (λ sent. sent ≡ []) params retry rounds s h)
  checked-SentAtMostOnce params is_canary retry (done (some stop), s) h =
      stopped-SentAtMostOnce (some stop) s (Unsent-AtMost s h)
  checked-SentAtMostOnce params is_canary retry (raised fault, s) h = Unsent-AtMost s h

  pre_connect-Unsent : Unsent verify (pre_connect remote new_session).1
  unfolding pre_connect
  pre_connect-Unsent =
      choose-IsSent remote verify (λ sent. sent ≡ []) (remote.has_cancel_event && remote.cancel 0) _
        _ (λ s h. h)
        (λ s h.
          after-IsSent remote verify (λ sent. sent ≡ []) _
            (has_timed_out remote "pre-connect checks" s)
            (has_timed_out-IsSent remote verify (λ sent. sent ≡ []) "pre-connect checks" s h)
            (λ late.
              choose-IsSent remote verify (λ sent. sent ≡ []) late _ _ (λ s' h'. h') (λ s' h'. h')))
        (record new_session { clock = 1 })
        (record { allowed = refl; listed = tt; unsent = λ e. refl })

  -- Whatever netmiko answers or raises: `execute_device_commands` sends the configuration commands at
  -- most once, all of them in one call and as they are given; where it reports an output of them they
  -- have been sent; and every other command that it sends is one of the verify commands.
  pub execute_device_commands-SentAtMostOnce :
      (params : DeviceParams) (is_canary retry : Bool)
      → SentAtMostOnce commands verify
          (execute_device_commands remote params commands verify is_canary retry).1
  unfolding execute_device_commands
  execute_device_commands-SentAtMostOnce params is_canary retry =
      checked-SentAtMostOnce params is_canary retry (pre_connect remote new_session)
        pre_connect-Unsent

pub reported_was_sent :
    (commands verify : List String) (s : Session) (output : String)
    → SentAtMostOnce commands verify s
    → s.result.apply_output ≡ some output
    → configs s.calls ≡ commands ∷ []
reported_was_sent commands verify s output h reported = elim h.allowed [
  | inl none_sent ↦ let nothing = h.unsent none_sent in cc
  | inr once ↦ once
]
