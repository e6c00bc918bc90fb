-- ===== src/Netmiko/Execute/Course.antt =====
-- What each step of a run leaves behind: an open connection and a result without an error, or a
-- closed connection and a result that says why.
use nw_edit.Prelude.{
  ◌≤◌, String, ◌≡◌, refl, Bool, true, false, not, ◌&&◌, Option, none, some, List, [], ◌∷◌, ◌++◌,
}
use nw_edit.Text.Strip.{size}
use nw_edit.Netmiko.Session.{
  Outcome, done, raised, Output, Call, opened, prompted, disconnected, command_sent, config_sent,
  Session,
}
use nw_edit.Netmiko.Output.{check_for_errors, max_log_size, finalize_logs, mark_failed}
use nw_edit.Netmiko.Output.Trimmed.{log_text, size-finalize_logs}
use nw_edit.Netmiko.Execute.{Stop, cancelled, timed_out, failed}

-- The connection was opened and has not been closed since. The latest call comes first.
abbrev pub is_open : List Call → Bool
is_open [] = false
is_open (opened ∷ calls) = true
is_open (disconnected ∷ calls) = false
is_open (_ ∷ calls) = is_open calls

-- Commands are sent on an open connection alone, and none is opened while one is open.
abbrev pub is_proper : List Call → Bool
is_proper [] = true
is_proper (opened ∷ calls) = not (is_open calls) && is_proper calls
is_proper (prompted ∷ calls) = is_open calls && is_proper calls
is_proper (command_sent command ∷ calls) = is_open calls && is_proper calls
is_proper (config_sent commands ∷ calls) = is_open calls && is_proper calls
is_proper (_ ∷ calls) = is_proper calls

-- A result without an error so far, or one of a failure.
abbrev pub IsClean : Output → Type 0
IsClean result = (result.status ≡ "success") × (result.error ≡ none) × (result.error_code ≡ none)

abbrev pub IsFailed : Output → Type 0
IsFailed result =
    (result.status ≡ "failed")
    × ((message : String) × (result.error ≡ some message))
    × ((code : String) × (result.error_code ≡ some code))

-- The configuration has been sent, and its output shows none of the patterns of an error.
abbrev pub IsApplied : Option String → Type 0
IsApplied apply_output =
    (output : String) × ((apply_output ≡ some output) × (check_for_errors output ≡ none))

-- Nothing is known of the configuration.
abbrev pub IsAny : Option String → Type 0
IsAny apply_output = Unit

-- An open connection and no error, with what is known of the configuration.
pub record Going (Known : Option String → Type 0) (s : Session) : Type 0 where
  pub applied : Known s.result.apply_output
  pub bounded : size (log_text s.result) ≤ max_log_size
  pub clean : IsClean s.result
  pub calls_proper : is_proper s.calls ≡ true
  pub still_open : is_open s.calls ≡ true

abbrev pub StopFits : Stop → Output → Type 0
StopFits cancelled result = Unit
StopFits timed_out result = IsFailed result
StopFits failed result = IsFailed result

pub record Halted (stop : Stop) (s : Session) : Type 0 where
  pub bounded : size (log_text s.result) ≤ max_log_size
  pub fits : StopFits stop s.result
  pub calls_proper : is_proper s.calls ≡ true
  pub closed : is_open s.calls ≡ false

pub record Broken (s : Session) : Type 0 where
  pub bounded : size (log_text s.result) ≤ max_log_size
  pub calls_proper : is_proper s.calls ≡ true

abbrev pub Post : (Option String → Type 0) → Outcome (Option Stop) × Session → Type 0
Post Known (done none, s) = Going Known s
Post Known (done (some stop), s) = Halted stop s
Post Known (raised fault, s) = Broken s

abbrev pub VerifyPost : (Option String → Type 0) → Outcome (String × Option Stop) × Session → Type 0
VerifyPost Known (done (outputs, stop), s) = Post Known (done stop, s)
VerifyPost Known (raised fault, s) = Broken s

-- What marking a failure leaves.
pub record Marked (s : Session) (marked : Session) : Type 0 where
  pub bounded : size (log_text marked.result) ≤ max_log_size
  pub failure : IsFailed marked.result
  pub same_calls : marked.calls ≡ s.calls

pub mark_failed-Marked :
    (code message line : String) (s : Session) → Marked s (mark_failed code message line s)
unfolding mark_failed finalize_logs
mark_failed-Marked code message line s = record {
  bounded = size-finalize_logs (record s {
    result = record s.result { status = "failed"; error_code = some code; error = some message };
    logs = s.logs ++ line ∷ [];
  });
  failure = (refl, (message, refl), (code, refl));
  same_calls = refl;
}

pub mark_failed-Halted :
    (code message line : String) (s : Session)
    → is_proper s.calls ≡ true
    → is_open s.calls ≡ false
    → Halted failed (mark_failed code message line s)
mark_failed-Halted code message line s proper closed =
    let marked = mark_failed-Marked code message line s in
    record {
      bounded = marked.bounded;
      fits = marked.failure;
      calls_proper = rw marked.same_calls proper;
      closed = rw marked.same_calls closed;
    }
