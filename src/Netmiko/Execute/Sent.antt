-- ===== src/Netmiko/Execute/Sent.antt =====
-- What is sent to a device: the configuration commands at most once and as they are given, and of
-- other commands the verification commands alone.
pub mod Steps
pub mod Once
use nw_edit.Prelude.{
  leb, ℕ, zero, suc, ◌+◌, String, ◌≡◌, refl, ap, ◌∙◌, ◌⊎◌, inl, inr, Bool, true, false, ◌&&◌, ◌||◌,
  Option, none, some, List, [], ◌∷◌, ◌++◌, All, any, ◌==◌, eq_iff, arith, Bool-cases, Option-cases,
  if◌then◌else◌, join,
}
use nw_edit.Netmiko.Session.{
  DeviceParams, Fault, timeout, authentication, other, Outcome, done, raised, Outcome-cases, Remote,
  Output, Call, refused, opened, prompted, disconnected, command_sent, config_sent, Session,
  new_session, Try, after, return, change, ◌>>=◌, ◌>>◌, log, should_cancel, disconnect,
  send_command, send_config_set, disconnect_quietly,
}
use nw_edit.Netmiko.Output.{
  check_for_errors, finalize_logs, mark_cancelled, mark_failed, store_verification_diff,
}
use nw_edit.Netmiko.Output.Trimmed.{store_verification_diff-Keeps}
use nw_edit.Netmiko.Execute.{
  add_log, failed_text, is_more, Stop, cancelled, timed_out, failed, has_timed_out, fail_with,
  timeout_text, verify_from, run_verification_commands, connect_from, refusal, give_up,
  announce_commands, send_commands, apply_configuration_commands, pre_verification,
  post_verification, converse, unless_stopped, caught, connected, checked, stopped, pre_connect,
  execute_device_commands,
}

-- The configurations that have been sent, the latest first.
abbrev pub configs : List Call → List (List String)
configs [] = []
configs (config_sent commands ∷ calls) = commands ∷ configs calls
configs (_ ∷ calls) = configs calls

abbrev pub is_listed : List String → Call → Bool
is_listed verify (command_sent command) = any (λ cmd. cmd == command) verify
is_listed verify _ = true

-- Every status command sent is one of those to verify with; what has been configured is allowed,
-- and where nothing has been there is no output of it.
pub record Sent (verify : List String) (Allowed : List (List String) → Type 0) (s : Session)
    : Type 0 where
  pub allowed : Allowed (configs s.calls)
  pub listed : All (λ call. is_listed verify call ≡ true) s.calls
  pub unsent : configs s.calls ≡ [] → s.result.apply_output ≡ none

module _ (remote : Remote) (verify : List String) (Allowed : List (List String) → Type 0) where
  abbrev pub IsSent : Session → Type 0
  IsSent = Sent verify Allowed

  abbrev pub Keeps : {A : Type 0} → Try A → Type 0
  Keeps code = (s : Session) → IsSent s → IsSent (code s).1

  pub after-IsSent :
      {A B : Type 0} (next : A → Try B) (out : Outcome A × Session)
      → IsSent out.1
      → ((a : A) → Keeps (next a))
      → IsSent (after next out).1
  after-IsSent next (done a, s) h keeps = keeps a s h
  after-IsSent next (raised fault, s) h keeps = h

  -- What neither calls netmiko nor touches the output of the configuration.
  pub IsSent-same :
      (s next : Session)
      → next.calls ≡ s.calls
      → next.result.apply_output ≡ s.result.apply_output
      → IsSent s
      → IsSent next
  IsSent-same s next c o h = record {
    allowed = rw c h.allowed;
    listed = rw c h.listed;
    unsent = λ e. o ∙ h.unsent (rw c at e);
  }

  pub mark_failed-IsSent :
      (code message line : String) (s : Session)
      → IsSent s
      → IsSent (mark_failed code message line s)
  unfolding mark_failed finalize_logs
  mark_failed-IsSent code message line s h = IsSent-same s _ refl refl h

  disconnect-IsSent : (s : Session) → IsSent s → IsSent (disconnect remote s).1
  disconnect-IsSent s h = record {
    allowed = h.allowed;
    listed = (refl, h.listed);
    unsent = h.unsent;
  }

  pub has_timed_out-IsSent : (stage : String) → Keeps (has_timed_out remote stage)
  unfolding has_timed_out
  has_timed_out-IsSent stage s h =
      let later = record s { clock = s.clock + 1 } in
      let message = timeout_text stage in
      let later-IsSent = IsSent-same s later refl refl h in
      elim (Bool-cases (leb (remote.elapsed s.clock) 180000)) [
        | inl early ↦ rw early later-IsSent
        | inr late ↦ rw late (
            mark_failed-IsSent "device_timeout" message (join "" ("ERROR: " ∷ message ∷ [])) later
              later-IsSent)
      ]

  pub choose-IsSent :
      {A : Type 0} (test : Bool) (on off : Try A)
      → Keeps on
      → Keeps off
      → Keeps (elim test [ true ↦ on | false ↦ off ])
  choose-IsSent true on off keeps keeps' = keeps
  choose-IsSent false on off keeps keeps' = keeps'

  pub found-IsSent :
      {A : Type 0} (found : Option String) (fine : Try A) (bad : String → Try A)
      → Keeps fine
      → ((message : String) → Keeps (bad message))
      → Keeps (elim found [ none ↦ fine | some message ↦ bad message ])
  found-IsSent none fine bad keeps keeps' = keeps
  found-IsSent (some message) fine bad keeps keeps' = keeps' message

  -- A disconnection, and what follows unless it raises.
  pub closing-IsSent :
      {B : Type 0} (then_this : Try B) → Keeps then_this → Keeps (disconnect remote >> then_this)
  closing-IsSent then_this keeps s h =
      after-IsSent (λ nothing. then_this) (disconnect remote s)
        (record { allowed = h.allowed; listed = (refl, h.listed); unsent = h.unsent })
        (λ nothing. keeps)

  pub failing-IsSent :
      {B : Type 0} (code message line : String) (answer : B)
      → Keeps (disconnect remote >> (fail_with code message line >> return answer))
  failing-IsSent code message line answer =
      closing-IsSent (fail_with code message line >> return answer)
        (mark_failed-IsSent code message line)
