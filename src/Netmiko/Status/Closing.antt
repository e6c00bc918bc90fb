-- ===== src/Netmiko/Status/Closing.antt =====
-- What status commands leave behind.
use nw_edit.Prelude.{
  ◌+◌, String, ◌≡◌, refl, true, false, List, [], ◌∷◌, ◌++◌, arith, Option-cases, inl, inr, join,
}
use nw_edit.Result.{
  Error, value_error, lookup_error, netmiko_error, runtime_error, http_error, Result, ok, err,
}
use nw_edit.Netmiko.Session.{
  DeviceParams, Fault, timeout, authentication, other, Outcome, done, raised, Outcome-cases, Remote,
  opened, command_sent, Session,
}
use nw_edit.Netmiko.Output.{check_for_errors}
use nw_edit.Netmiko.Execute.Course.{is_open, is_proper}
use nw_edit.Netmiko.Status.{
  connect, status_from, closing, talk, with_list, fault_error, parse_status_commands,
  run_status_commands,
}

-- The errors of the endpoint's two `except` clauses.
abbrev pub IsExpected : Result String → Type 0
IsExpected (ok output) = Unit
IsExpected (err (value_error text)) = Unit
IsExpected (err (runtime_error text)) = Unit
IsExpected (err _) = ⊥

pub record IsClosed (out : Result String × Session) : Type 0 where
  pub closed : is_open out.1.calls ≡ false
  pub calls_proper : is_proper out.1.calls ≡ true
  pub expected : IsExpected out.0

-- While the connection is open.
abbrev Talking : Outcome (Result String) × Session → Type 0
Talking (done answer, s) = (is_proper s.calls ≡ true) × IsExpected answer
Talking (raised fault, s) = is_proper s.calls ≡ true

module _ (remote : Remote) where
  status_from-Talking :
      (outputs cmds : List String) (s : Session)
      → is_open s.calls ≡ true
      → is_proper s.calls ≡ true
      → Talking (status_from remote outputs cmds s)
  unfolding status_from
  status_from-Talking outputs [] s o p = (p, tt)
  status_from-Talking outputs (cmd ∷ cmds) s o p =
      let sent = record s { clock = s.clock + 1; calls = command_sent cmd ∷ s.calls } in
      elim (Outcome-cases (remote.send_command s.clock cmd)) [
        | inr (fault, e) ↦ rw e (ground arith)
        | inl (output, e) ↦ elim (Option-cases (check_for_errors output)) [
          | inr (message, k) ↦ rw (e, k) (ground arith, tt)
          | inl k ↦
              rw (e, k)
                (status_from-Talking (outputs ++ join "" ("$ " ∷ cmd ∷ "\n" ∷ output ∷ []) ∷ [])
                  cmds sent o (ground arith))
        ]
      ]

  fault_error-IsExpected : (fault : Fault) → IsExpected (err (fault_error remote fault))
  unfolding fault_error
  fault_error-IsExpected (timeout text) = tt
  fault_error-IsExpected (authentication text) = tt
  fault_error-IsExpected (other text) = tt

  closing-IsClosed :
      (out : Outcome (Result String) × Session) → Talking out → IsClosed (closing remote out)
  unfolding closing
  closing-IsClosed (done answer, s) t = record { closed = refl; calls_proper = t.0; expected = t.1 }
  closing-IsClosed (raised fault, s) t = record {
    closed = refl;
    calls_proper = t;
    expected = fault_error-IsExpected fault;
  }

  talk-IsClosed :
      (params : DeviceParams) (cmds : List String) (s : Session)
      → is_open s.calls ≡ false
      → is_proper s.calls ≡ true
      → IsClosed (talk remote cmds (connect remote params s))
  unfolding talk connect
  talk-IsClosed params cmds s o p = elim (Outcome-cases (remote.connect s.clock params)) [
    | inr (fault, e) ↦
        rw (e, talk, connect)
          (record { closed = o; calls_proper = p; expected = fault_error-IsExpected fault })
    | inl (nothing, e) ↦
        let connected = record s { clock = s.clock + 1; calls = opened ∷ s.calls } in
        rw (e, talk, connect)
          (closing-IsClosed (status_from remote [] cmds connected)
            (status_from-Talking [] cmds connected refl (ground arith)))
  ]

  with_list-IsClosed :
      (params : DeviceParams) (listed : Result (List String)) (s : Session)
      → ((e : Error) → listed ≡ err e → IsExpected (err e))
      → is_open s.calls ≡ false
      → is_proper s.calls ≡ true
      → IsClosed (with_list remote params listed s)
  unfolding with_list
  with_list-IsClosed params (err e) s known o p = record {
    closed = o;
    calls_proper = p;
    expected = known e refl;
  }
  with_list-IsClosed params (ok cmds) s known o p = talk-IsClosed params cmds s o p

  pub parse_error :
      (commands : String) (e : Error) → parse_status_commands commands ≡ err e → IsExpected (err e)
  unfolding parse_status_commands
  parse_error commands (value_error text) h = tt
  parse_error commands (runtime_error text) h = tt
  parse_error commands (lookup_error text) h = ground arith
  parse_error commands (netmiko_error text) h = ground arith
  parse_error commands (http_error code text) h = ground arith

  -- Whatever the connection answers or raises: `run_status_commands` leaves no connection open, sends
  -- commands on an open connection alone, and raises nothing but a ValueError or a RuntimeError.
  pub run_status_commands-IsClosed :
      (params : DeviceParams) (commands : String) (s : Session)
      → is_open s.calls ≡ false
      → is_proper s.calls ≡ true
      → IsClosed (run_status_commands remote params commands s)
  unfolding run_status_commands
  run_status_commands-IsClosed params commands s o p =
      with_list-IsClosed params (parse_status_commands commands) s (parse_error commands) o p
