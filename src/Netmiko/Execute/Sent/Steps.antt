-- ===== src/Netmiko/Execute/Sent/Steps.antt =====
-- Every step of `execute_device_commands` but the configuration itself sends verify commands alone.
use nw_edit.Prelude.{
  ℕ, zero, suc, ◌+◌, String, ◌≡◌, refl, inl, inr, Bool, true, false, ◌&&◌, Option, none, some, List,
  [], ◌∷◌, ◌++◌, All, any, ◌==◌, join,
}
use nw_edit.Netmiko.Session.{
  DeviceParams, Fault, timeout, authentication, other, Outcome, done, raised, Outcome-cases, Remote,
  refused, Session, Try, after, return, change, ◌>>◌, log, send_command,
}
use nw_edit.Netmiko.Output.{check_for_errors, store_verification_diff}
use nw_edit.Netmiko.Output.Trimmed.{store_verification_diff-Keeps}
use nw_edit.Netmiko.Execute.{
  add_log, failed_text, is_more, Stop, cancelled, timed_out, failed, has_timed_out, verify_from,
  run_verification_commands, connect_from, refusal, give_up, announce_commands, pre_verification,
  post_verification, unless_stopped,
}
use nw_edit.Netmiko.Execute.Sent.{
  IsSent, Keeps, after-IsSent, IsSent-same, mark_failed-IsSent, has_timed_out-IsSent, choose-IsSent,
  found-IsSent, closing-IsSent, failing-IsSent,
}

module _ (remote : Remote) (verify : List String) (Allowed : List (List String) → Type 0) where
  verify_from-IsSent :
      (stage : String) (outputs cmds : List String)
      → All (λ cmd. any (λ listed. listed == cmd) verify ≡ true) cmds
      → Keeps remote verify Allowed (verify_from remote stage outputs cmds)
  unfolding verify_from
  verify_from-IsSent stage outputs [] all s h = h
  verify_from-IsSent stage outputs (cmd ∷ cmds) (listed, all) s h =
      let asked = record s { clock = s.clock + 1 } in
      choose-IsSent remote verify Allowed (remote.has_cancel_event && remote.cancel s.clock) _ _
        (closing-IsSent remote verify Allowed (return (join "\n" outputs, some cancelled))
          (λ s' h'. h'))
        (λ s1 h1.
          after-IsSent remote verify Allowed _ (has_timed_out remote stage s1)
            (has_timed_out-IsSent remote verify Allowed stage s1 h1)
            (λ late.
              choose-IsSent remote verify Allowed late _ _
                (closing-IsSent remote verify Allowed (return (join "\n" outputs, some timed_out))
                  (λ s' h'. h'))
                (λ s2 h2.
                  let logged = log (join "" ("  > " ∷ cmd ∷ [])) s2 in
                  after-IsSent remote verify Allowed _ (send_command remote cmd logged)
                    (record {
                      allowed = h2.allowed;
                      listed = (listed, h2.listed);
                      unsent = h2.unsent;
                    })
                    (λ output.
                      found-IsSent remote verify Allowed (check_for_errors output) _ _
                        (verify_from-IsSent stage (outputs ++ output ∷ []) cmds all)
                        (λ message.
                          failing-IsSent remote verify Allowed "command_error" message
                            (join "" ("ERROR: " ∷ message ∷ []))
                            (join "\n" (outputs ++ output ∷ []), some failed))))))
        asked (IsSent-same remote verify Allowed s asked refl refl h)

  logged-IsSent :
      (message : String) (then_this : Try (Option Stop))
      → Keeps remote verify Allowed then_this
      → Keeps remote verify Allowed (add_log message >> then_this)
  logged-IsSent message then_this keeps s h =
      keeps (log message s) (IsSent-same remote verify Allowed s _ refl refl h)

  refusal-IsSent :
      (again : String → Try (Option Stop)) (may_retry : Bool) (fault : Fault)
      → ((text : String) → Keeps remote verify Allowed (again text))
      → Keeps remote verify Allowed (refusal remote again may_retry fault)
  unfolding refusal give_up
  refusal-IsSent again true (timeout text) keeps = keeps text
  refusal-IsSent again false (timeout text) keeps = mark_failed-IsSent remote verify Allowed _ _ _
  refusal-IsSent again _ (authentication text) keeps =
      mark_failed-IsSent remote verify Allowed _ _ _
  refusal-IsSent again true (other text) keeps = keeps text
  refusal-IsSent again false (other text) keeps = mark_failed-IsSent remote verify Allowed _ _ _

  pub connect_from-IsSent :
      (params : DeviceParams) (retry : Bool) (left : ℕ)
      → Keeps remote verify Allowed (connect_from remote params retry left)
  unfolding connect_from
  connect_from-IsSent params retry zero s h = h
  connect_from-IsSent params retry (suc left) s h =
      after-IsSent remote verify Allowed _ (has_timed_out remote "connection" s)
        (has_timed_out-IsSent remote verify Allowed "connection" s h)
        (λ late.
          choose-IsSent remote verify Allowed late _ _ (λ s' h'. h')
            (λ s1 h1.
              choose-IsSent remote verify Allowed
                (remote.has_cancel_event && remote.cancel s1.clock) _ _ (λ s' h'. h')
                (λ s2 h2. elim (Outcome-cases (remote.connect s2.clock params)) [
                  | inl (nothing, e) ↦ rw e (record {
                    allowed = h2.allowed;
                    listed = (refl, h2.listed);
                    unsent = h2.unsent;
                  })
                  | inr (fault, e) ↦
                      let tried = record s2 { clock = s2.clock + 1; calls = refused ∷ s2.calls } in
                      rw e (
                        refusal-IsSent
                          (λ text.
                            add_log (join "" (failed_text remote text ∷ ". Retrying in 5s..." ∷ []))
                            >> connect_from remote params retry left)
                          (retry && is_more left) fault
                          (λ text.
                            logged-IsSent _ (connect_from remote params retry left)
                              (connect_from-IsSent params retry left))
                          tried
                          (record {
                            allowed = h2.allowed;
                            listed = (refl, h2.listed);
                            unsent = h2.unsent;
                          }))
                ])
                _ (IsSent-same remote verify Allowed s1 _ refl refl h1)))

  pub announce_commands-IsSent :
      (commands : List String) → Keeps remote verify Allowed (announce_commands remote commands)
  unfolding announce_commands
  announce_commands-IsSent [] s h =
      after-IsSent remote verify Allowed _ (has_timed_out remote "configuration apply" s)
        (has_timed_out-IsSent remote verify Allowed "configuration apply" s h)
        (λ late.
          choose-IsSent remote verify Allowed late _ _
            (closing-IsSent remote verify Allowed (return (some timed_out)) (λ s' h'. h'))
            (λ s' h'. h'))
  announce_commands-IsSent (cmd ∷ cmds) s h =
      choose-IsSent remote verify Allowed (remote.has_cancel_event && remote.cancel s.clock) _ _
        (closing-IsSent remote verify Allowed (return (some cancelled)) (λ s' h'. h'))
        (λ s1 h1.
          after-IsSent remote verify Allowed _ (has_timed_out remote "configuration apply" s1)
            (has_timed_out-IsSent remote verify Allowed "configuration apply" s1 h1)
            (λ late.
              choose-IsSent remote verify Allowed late _ _
                (closing-IsSent remote verify Allowed (return (some timed_out)) (λ s' h'. h'))
                (λ s2 h2.
                  announce_commands-IsSent cmds _
                    (IsSent-same remote verify Allowed s2 _ refl refl h2))))
        _ (IsSent-same remote verify Allowed s _ refl refl h)

  verified-IsSent :
      (keep : String → Session → Session) (out : Outcome (String × Option Stop) × Session)
      → IsSent remote verify Allowed out.1
      → ((outputs : String) (s : Session)
          → IsSent remote verify Allowed s
          → IsSent remote verify Allowed (keep outputs s))
      → IsSent remote verify Allowed
          (after {B = Option Stop}
            (λ verified. elim verified.1 [
              | some stop ↦ return (some stop)
              | none ↦ change (keep verified.0) >> return none
            ])
            out).1
  verified-IsSent keep (done (outputs, none), s) h keeps = keeps outputs s h
  verified-IsSent keep (done (outputs, some stop), s) h keeps = h
  verified-IsSent keep (raised fault, s) h keeps = h

  pub pre_verification-IsSent :
      (cmds : List String)
      → All (λ cmd. any (λ listed. listed == cmd) verify ≡ true) cmds
      → Keeps remote verify Allowed (pre_verification remote cmds)
  unfolding pre_verification run_verification_commands
  pre_verification-IsSent [] all s h = h
  pre_verification-IsSent (cmd ∷ cmds) all s h =
      let begun = log "Running pre-verification commands..." s in
      verified-IsSent
        (λ outputs s'.
          log "Pre-verification complete"
            (record s' { result = record s'.result { pre_output = some outputs } }))
        (verify_from remote "pre-verification" [] (cmd ∷ cmds) begun)
        (verify_from-IsSent "pre-verification" [] (cmd ∷ cmds) all begun
          (IsSent-same remote verify Allowed s begun refl refl h))
        (λ outputs s' h'. IsSent-same remote verify Allowed s' _ refl refl h')

  diff-IsSent :
      (s : Session)
      → IsSent remote verify Allowed s
      → IsSent remote verify Allowed (store_verification_diff remote s)
  diff-IsSent s h =
      let kept = store_verification_diff-Keeps remote s in
      let (pre, apply, post) = kept.outputs in
      IsSent-same remote verify Allowed s (store_verification_diff remote s) kept.calls apply h

  pub post_verification-IsSent :
      (cmds : List String)
      → All (λ cmd. any (λ listed. listed == cmd) verify ≡ true) cmds
      → Keeps remote verify Allowed (post_verification remote cmds)
  unfolding post_verification run_verification_commands
  post_verification-IsSent [] all s h = h
  post_verification-IsSent (cmd ∷ cmds) all s h =
      let begun = log "Running post-verification commands..." s in
      verified-IsSent
        (λ outputs s'. store_verification_diff remote (
          log "Post-verification complete"
            (record s' { result = record s'.result { post_output = some outputs } })))
        (verify_from remote "post-verification" [] (cmd ∷ cmds) begun)
        (verify_from-IsSent "post-verification" [] (cmd ∷ cmds) all begun
          (IsSent-same remote verify Allowed s begun refl refl h))
        (λ outputs s' h'. diff-IsSent _ (IsSent-same remote verify Allowed s' _ refl refl h'))

  pub unless_stopped-IsSent :
      (stop : Option Stop) (then_this : Try (Option Stop))
      → Keeps remote verify Allowed then_this
      → Keeps remote verify Allowed (unless_stopped remote stop then_this)
  unfolding unless_stopped
  unless_stopped-IsSent none then_this keeps s h = keeps s h
  unless_stopped-IsSent (some stop) then_this keeps s h = h
