-- ===== src/Netmiko/Execute/Whole.antt =====
-- The whole run on one device.
use nw_edit.Prelude.{
  ◌≤◌, String, ◌≡◌, refl, ◌⊎◌, inl, inr, Bool, true, false, ◌&&◌, Option, none, some, List, arith,
  Bool-cases, join,
}
use nw_edit.Text.Strip.{size}
use nw_edit.Netmiko.Session.{
  DeviceParams, timeout, authentication, other, Outcome, done, raised, Remote, Session, new_session,
  disconnect_quietly,
}
use nw_edit.Netmiko.Output.{max_log_size, finalize_logs, mark_cancelled, mark_failed}
use nw_edit.Netmiko.Output.Trimmed.{log_text, size-finalize_logs, size-mark_cancelled}
use nw_edit.Netmiko.Execute.{
  Stop, cancelled, timed_out, failed, connect_from, converse, caught, connected, checked, stopped,
  pre_connect, execute_device_commands,
}
use nw_edit.Netmiko.Execute.Course.{
  IsApplied, is_open, is_proper, IsClean, IsFailed, Halted, Broken, mark_failed-Halted,
}
use nw_edit.Netmiko.Execute.Steps.{has_timed_out_cases}
use nw_edit.Netmiko.Execute.Conversation.{
  Idle, ConversePost, ConnectPost, converse-Post, connect_from-Post, Idle-kept,
}

module _ (remote : Remote) where
  -- What a whole run leaves.
  pub record IsOver (s : Session) : Type 0 where
    pub bounded : size (log_text s.result) ≤ max_log_size
    pub calls_proper : is_proper s.calls ≡ true
    pub closed : is_open s.calls ≡ false
    pub verdict :
        (IsClean s.result × IsApplied s.result.apply_output)
        ⊎ (IsFailed s.result
            ⊎ ((s.result.status ≡ "cancelled") × (s.result.error_code ≡ some "cancelled")))

  -- A run that returns, and leaves that.
  abbrev pub IsReturned : Outcome (Unit {0}) × Session → Type 0
  IsReturned out = (out.0 ≡ done tt) × IsOver out.1

  stopped-IsOver :
      (stop : Stop) (s : Session) → Halted stop s → IsOver (stopped remote (some stop) s)
  unfolding stopped mark_cancelled finalize_logs
  stopped-IsOver cancelled s h = record {
    bounded = size-mark_cancelled s;
    calls_proper = h.calls_proper;
    closed = h.closed;
    verdict = inr (inr (refl, refl));
  }
  stopped-IsOver timed_out s h = record {
    bounded = h.bounded;
    calls_proper = h.calls_proper;
    closed = h.closed;
    verdict = inr (inl h.fits);
  }
  stopped-IsOver failed s h = record {
    bounded = h.bounded;
    calls_proper = h.calls_proper;
    closed = h.closed;
    verdict = inr (inl h.fits);
  }

  finished-IsOver :
      (s : Session) → Idle s → IsApplied s.result.apply_output → IsOver (finalize_logs s)
  unfolding finalize_logs
  finished-IsOver s i a = record {
    bounded = size-finalize_logs s;
    calls_proper = i.calls_proper;
    closed = i.closed;
    verdict = inl (i.clean, a);
  }

  -- After an exception the connection is closed, whether closing raises or not.
  crashed-IsOver :
      (code message line : String) (s : Session)
      → Broken s
      → IsOver (mark_failed code message line (disconnect_quietly remote s))
  crashed-IsOver code message line s b =
      let halted =
        mark_failed-Halted code message line (disconnect_quietly remote s) b.calls_proper refl in
      record {
        bounded = halted.bounded;
        calls_proper = halted.calls_proper;
        closed = halted.closed;
        verdict = inr (inl halted.fits);
      }

  caught-IsOver :
      (out : Outcome (Option Stop) × Session) → ConversePost out → IsReturned (caught remote out)
  unfolding caught stopped
  caught-IsOver (done none, s) (i, a) = (refl, finished-IsOver s i a)
  caught-IsOver (done (some stop), s) h = (refl, stopped-IsOver stop s h)
  caught-IsOver (raised (timeout text), s) b = (refl, crashed-IsOver _ _ _ s b)
  caught-IsOver (raised (authentication text), s) b = (refl, crashed-IsOver _ _ _ s b)
  caught-IsOver (raised (other text), s) b = (refl, crashed-IsOver _ _ _ s b)

  connected-IsOver :
      (commands verify_cmds : List String) (out : Outcome (Option Stop) × Session)
      → ConnectPost out
      → IsReturned (connected remote commands verify_cmds out)
  unfolding connected
  connected-IsOver commands verify_cmds (done none, s) g =
      caught-IsOver (converse remote commands verify_cmds s)
        (converse-Post remote commands verify_cmds s g)
  connected-IsOver commands verify_cmds (done (some stop), s) h = (refl, stopped-IsOver stop s h)
  connected-IsOver commands verify_cmds (raised fault, s) h = absurd h

  abbrev StartPost : Outcome (Option Stop) × Session → Type 0
  StartPost (done none, s) = Idle s
  StartPost (done (some stop), s) = Halted stop s
  StartPost (raised fault, s) = ⊥

  new_session-Idle : Idle new_session
  unfolding join size
  new_session-Idle = record {
    bounded = omega arith;
    clean = (refl, refl, refl);
    calls_proper = refl;
    closed = refl;
  }

  pre_connect-StartPost : StartPost (pre_connect remote new_session)
  unfolding pre_connect
  pre_connect-StartPost =
      let i = new_session-Idle in
      let asked = record new_session { clock = 1 } in
      elim (Bool-cases (remote.has_cancel_event && remote.cancel 0)) [
        | inl c ↦
            rw c (record { bounded = i.bounded; fits = tt; calls_proper = refl; closed = refl })
        | inr c ↦ elim (has_timed_out_cases remote "pre-connect checks" asked) [
          | inl t ↦ rw (c, t) (Idle-kept remote new_session _ i refl refl refl)
          | inr (marked, t, m) ↦
              rw (c, t)
                (record {
                  bounded = m.bounded;
                  fits = m.failure;
                  calls_proper = rw m.same_calls refl;
                  closed = rw m.same_calls refl;
                })
        ]
      ]

  checked-IsOver :
      (params : DeviceParams) (commands verify_cmds : List String) (is_canary retry : Bool)
      (out : Outcome (Option Stop) × Session)
      → StartPost out
      → IsReturned (checked remote params commands verify_cmds is_canary retry out)
  unfolding checked
  checked-IsOver params commands verify_cmds true retry (done none, s) i =
      connected-IsOver commands verify_cmds (connect_from remote params retry 1 s)
        (connect_from-Post remote params retry 0 s i)
  checked-IsOver params commands verify_cmds false retry (done none, s) i =
      connected-IsOver commands verify_cmds (connect_from remote params retry 2 s)
        (connect_from-Post remote params retry 1 s i)
  checked-IsOver params commands verify_cmds _ retry (done (some stop), s) h =
      (refl, stopped-IsOver stop s h)
  checked-IsOver params commands verify_cmds _ retry (raised fault, s) h = absurd h

  -- Whatever netmiko answers or raises and whenever the run is cancelled or times out:
  -- `execute_device_commands` returns and raises nothing, at its end no connection is left open,
  -- commands were sent on an open connection alone, the returned log has at most 1,048,576
  -- characters, and the status is "success" without an error and with an output of the configuration
  -- commands that shows no error, "failed" with an error and a code, or "cancelled".
  pub execute_device_commands-IsOver :
      (params : DeviceParams) (commands verify_cmds : List String) (is_canary retry : Bool)
      → ((execute_device_commands remote params commands verify_cmds is_canary retry).0 ≡ done tt)
        × IsOver (execute_device_commands remote params commands verify_cmds is_canary retry).1
  unfolding execute_device_commands
  execute_device_commands-IsOver params commands verify_cmds is_canary retry =
      checked-IsOver params commands verify_cmds is_canary retry (pre_connect remote new_session)
        pre_connect-StartPost
