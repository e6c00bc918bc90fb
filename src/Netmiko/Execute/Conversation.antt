-- ===== src/Netmiko/Execute/Conversation.antt =====
-- What connecting and the conversation behind it leave.
use nw_edit.Prelude.{
  ℕ, zero, suc, ◌+◌, ◌≤◌, String, ◌≡◌, refl, ◌∙◌, inl, inr, Bool, true, false, ◌&&◌, Option, none,
  some, List, [], ◌∷◌, ◌++◌, arith, Bool-cases, join, show_int,
}
use nw_edit.Text.Strip.{size}
use nw_edit.Netmiko.Session.{
  DeviceParams, Fault, timeout, authentication, other, Outcome, done, raised, Outcome-cases, Remote,
  refused, Session, Try, after, return, ◌>>◌, log, disconnect,
}
use nw_edit.Netmiko.Output.{max_log_size}
use nw_edit.Netmiko.Output.Trimmed.{log_text}
use nw_edit.Netmiko.Execute.{
  Stop, failed, add_log, connect_from, give_up, refusal, failed_text, is_more,
  apply_configuration_commands, pre_verification, post_verification, converse, unless_stopped,
}
use nw_edit.Netmiko.Execute.Course.{
  is_open, is_proper, IsClean, IsApplied, IsAny, Going, Halted, Broken, Post, mark_failed-Halted,
}
use nw_edit.Netmiko.Execute.Steps.{
  has_timed_out_cases, apply_configuration_commands-Post, pre_verification-Post,
  post_verification-Post,
}

-- No connection is open, and no error is recorded: before the connection, or behind its end.
pub record Idle (s : Session) : Type 0 where
  pub bounded : size (log_text s.result) ≤ max_log_size
  pub clean : IsClean s.result
  pub calls_proper : is_proper s.calls ≡ true
  pub closed : is_open s.calls ≡ false

-- What the body of the `try` leaves.
abbrev pub ConversePost : Outcome (Option Stop) × Session → Type 0
ConversePost (done none, s) = Idle s × IsApplied s.result.apply_output
ConversePost (done (some stop), s) = Halted stop s
ConversePost (raised fault, s) = Broken s

-- What connecting leaves; it raises nothing.
abbrev pub ConnectPost : Outcome (Option Stop) × Session → Type 0
ConnectPost (done none, s) = Going IsAny s
ConnectPost (done (some stop), s) = Halted stop s
ConnectPost (raised fault, s) = ⊥

module _ (remote : Remote) where
  unless_stopped-ConversePost :
      (Known : Option String → Type 0) (out : Outcome (Option Stop) × Session)
      (next : Try (Option Stop))
      → Post Known out
      → ((s : Session) → Going Known s → ConversePost (next s))
      → ConversePost (after (λ stop. unless_stopped remote stop next) out)
  unfolding unless_stopped
  unless_stopped-ConversePost Known (done none, s) next h then_next = then_next s h
  unless_stopped-ConversePost Known (done (some stop), s) next h then_next = h
  unless_stopped-ConversePost Known (raised fault, s) next h then_next = h

  farewell : Try (Option Stop)
  farewell = disconnect remote >> (add_log "Disconnected" >> return none)

  farewell-ConversePost : (s : Session) → Going IsApplied s → ConversePost (farewell s)
  unfolding farewell
  farewell-ConversePost s g = elim (Outcome-cases (remote.disconnect s.clock)) [
    | inl (nothing, e) ↦ rw e (
      record { bounded = g.bounded; clean = g.clean; calls_proper = g.calls_proper; closed = refl },
      g.applied,
    )
    | inr (fault, e) ↦ rw e (record { bounded = g.bounded; calls_proper = g.calls_proper })
  ]

  pub converse-Post :
      (commands verify_cmds : List String) (s : Session)
      → Going IsAny s
      → ConversePost (converse remote commands verify_cmds s)
  unfolding converse farewell
  converse-Post commands verify_cmds s g =
      unless_stopped-ConversePost IsAny (pre_verification remote verify_cmds s) _
        (pre_verification-Post remote IsAny verify_cmds s g)
        (λ s1 g1.
          unless_stopped-ConversePost IsApplied (apply_configuration_commands remote commands s1) _
            (apply_configuration_commands-Post remote IsAny commands s1 g1)
            (λ s2 g2.
              unless_stopped-ConversePost IsApplied (post_verification remote verify_cmds s2) _
                (post_verification-Post remote IsApplied verify_cmds s2 g2) farewell-ConversePost))

  give_up-Halted :
      (code text : String) (s : Session) → Idle s → Halted failed (give_up remote code text s).1
  unfolding give_up
  give_up-Halted code text s i = mark_failed-Halted code _ _ s i.calls_proper i.closed

  refusal-Post :
      (again : String → Try (Option Stop)) (may_retry : Bool) (fault : Fault) (s : Session)
      → Idle s
      → (may_retry ≡ true → (text : String) → ConnectPost (again text s))
      → ConnectPost (refusal remote again may_retry fault s)
  unfolding refusal give_up
  refusal-Post again true (timeout text) s i next = next refl text
  refusal-Post again false (timeout text) s i next = give_up-Halted "connection_timeout" text s i
  refusal-Post again true (authentication text) s i next =
      give_up-Halted "authentication_failed" text s i
  refusal-Post again false (authentication text) s i next =
      give_up-Halted "authentication_failed" text s i
  refusal-Post again true (other text) s i next = next refl text
  refusal-Post again false (other text) s i next = give_up-Halted "connection_error" text s i

  -- What follows the checks of a round.
  pub Idle-kept :
      (s after : Session)
      → Idle s
      → after.result ≡ s.result
      → is_proper after.calls ≡ is_proper s.calls
      → is_open after.calls ≡ is_open s.calls
      → Idle after
  Idle-kept s after i r p o = record {
    bounded = rw r i.bounded;
    clean = rw r i.clean;
    calls_proper = p ∙ i.calls_proper;
    closed = o ∙ i.closed;
  }

  round-Post :
      (params : DeviceParams) (retry : Bool) (left : ℕ)
      → (is_more left ≡ true
          → (s : Session) → Idle s
          → ConnectPost (connect_from remote params retry left s))
      → (s : Session) → Idle s
      → ConnectPost (connect_from remote params retry (suc left) s)
  unfolding connect_from
  round-Post params retry left more s i = elim (has_timed_out_cases remote "connection" s) [
    | inr (marked, t, m) ↦ rw t (record {
      bounded = m.bounded;
      fits = m.failure;
      calls_proper = rw m.same_calls i.calls_proper;
      closed = rw m.same_calls i.closed;
    })
    | inl t ↦
        let logged = record s {
          clock = s.clock + 1;
          logs =
              s.logs
              ++ join "" ("Connecting to " ∷ params.host ∷ ":" ∷ show_int params.port ∷ "..." ∷ [])
                ∷ [];
        } in
        let asked = record logged { clock = logged.clock + 1 } in
        let tried = record asked { clock = asked.clock + 1; calls = refused ∷ s.calls } in
        elim (Bool-cases (remote.has_cancel_event && remote.cancel logged.clock)) [
          | inl c ↦
              rw (t, c)
                (record {
                  bounded = i.bounded;
                  fits = tt;
                  calls_proper = i.calls_proper;
                  closed = i.closed;
                })
          | inr c ↦ elim (Outcome-cases (remote.connect asked.clock params)) [
            | inl (nothing, e) ↦
                rw (t, c, e)
                  (record {
                    bounded = i.bounded;
                    clean = i.clean;
                    calls_proper = ground arith;
                    still_open = refl;
                    applied = tt;
                  })
            | inr (fault, e) ↦
                rw (t, c, e)
                  (refusal-Post _ (retry && is_more left) fault tried
                    (Idle-kept s tried i refl refl refl)
                    (λ h text.
                      more (ground arith)
                        (log (join "" (failed_text remote text ∷ ". Retrying in 5s..." ∷ [])) tried)
                        (Idle-kept s _ i refl refl refl)))
          ]
        ]
  ]

  pub connect_from-Post :
      (params : DeviceParams) (retry : Bool) (left : ℕ) (s : Session)
      → Idle s
      → ConnectPost (connect_from remote params retry (suc left) s)
  connect_from-Post params retry zero s i = round-Post params retry zero (λ h. cc) s i
  connect_from-Post params retry (suc left) s i =
      round-Post params retry (suc left) (λ h. connect_from-Post params retry left) s i
