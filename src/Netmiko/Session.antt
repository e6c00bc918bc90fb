-- ===== src/Netmiko/Session.antt =====
-- A connection to a device, and code that calls it and may raise.
use nw_edit.Prelude.{
  ℤ, ◌≡◌, refl, ◌⊎◌, inl, inr, ℕ, ◌+◌, String, Bool, false, ◌&&◌, Option, none, List, [], ◌∷◌, ◌++◌,
}

-- The exceptions that netmiko's calls raise: NetmikoTimeoutException,
-- NetmikoAuthenticationException, and any other; each with its text.
pub data Fault : Type 0 where
  timeout authentication other : String → Fault

pub data Outcome (A : Type 0) : Type 0 where
  done : A → Outcome A
  raised : Fault → Outcome A

pub Outcome-cases :
    {A : Type 0} (out : Outcome A)
    → ((a : A) × (out ≡ done a)) ⊎ ((fault : Fault) × (out ≡ raised fault))
Outcome-cases (done a) = inl (a, refl)
Outcome-cases (raised fault) = inr (fault, refl)

-- `device_params`; the port is always given.
pub record DeviceParams : Type 0 where
  pub host : String
  pub port : ℤ
  pub device_type : String
  pub username : String
  pub password : String

-- What the code finds around it, by the number of the observation: the cancel event, the time since
-- the start in milliseconds, and the answers of netmiko. `ConnectHandler`, with the parameters of
-- the device, is `connect`. The last
-- field is `difflib.unified_diff` with the labels "pre" and "post".
pub record Remote : Type 0 where
  pub has_cancel_event : Bool
  pub cancel : ℕ → Bool
  pub elapsed : ℕ → ℕ
  pub connect : ℕ → DeviceParams → Outcome (Unit {0})
  pub find_prompt : ℕ → Outcome String
  pub send_command : ℕ → String → Outcome String
  pub send_config_set : ℕ → List String → Outcome String
  pub disconnect : ℕ → Outcome (Unit {0})
  pub unified_diff : List String → List String → List String

-- The dictionary `result`.
pub record Output : Type 0 where
  pub status : String
  pub error : Option String
  pub error_code : Option String
  pub pre_output : Option String
  pub apply_output : Option String
  pub post_output : Option String
  pub diff : Option String
  pub diff_truncated : Bool
  pub diff_original_size : ℕ
  pub logs : List String
  pub log_trimmed : Bool

-- `_initial_execution_result`.
abbrev pub initial_output : Output
initial_output = record {
  status = "success";
  error = none;
  error_code = none;
  pre_output = none;
  apply_output = none;
  post_output = none;
  diff = none;
  diff_truncated = false;
  diff_original_size = 0;
  logs = [];
  log_trimmed = false;
}

-- What has been asked of netmiko.
pub data Call : Type 0 where
  refused opened prompted disconnected : Call
  command_sent : String → Call
  config_sent : List String → Call

-- The local variables `logs` and `result`, how often the surroundings have been observed, and the
-- calls so far, the latest first.
pub record Session : Type 0 where
  pub clock : ℕ
  pub logs : List String
  pub result : Output
  pub calls : List Call

abbrev pub new_session : Session
new_session = record { clock = 0; logs = []; result = initial_output; calls = [] }

-- Code that changes the session and may raise.
abbrev pub Try : Type 0 → Type 0
Try A = Session → Outcome A × Session

abbrev pub return : {A : Type 0} → A → Try A
return a s = (done a, s)

abbrev pub after : {A B : Type 0} → (A → Try B) → Outcome A × Session → Outcome B × Session
after next (done a, s) = next a s
after next (raised fault, s) = (raised fault, s)

infixl 5 ◌>>=◌ ◌>>◌
abbrev pub ◌>>=◌ : {A B : Type 0} → Try A → (A → Try B) → Try B
◌>>=◌ first next s = after next (first s)

abbrev pub ◌>>◌ : {B : Type 0} → Try (Unit {0}) → Try B → Try B
first >> then_this = first >>= λ nothing. then_this

abbrev pub log : String → Session → Session
log message s = record s { logs = s.logs ++ message ∷ [] }

abbrev pub change : (Session → Session) → Try (Unit {0})
change f s = (done tt, f s)

-- A call of netmiko on the connection.
abbrev pub call : {A : Type 0} → Call → (ℕ → Outcome A) → Try A
call what answer s = (answer s.clock, record s { clock = s.clock + 1; calls = what ∷ s.calls })

module _ (remote : Remote) where
  -- `should_cancel()`.
  abbrev pub should_cancel : Try Bool
  should_cancel s =
      (done (remote.has_cancel_event && remote.cancel s.clock), record s { clock = s.clock + 1 })

  abbrev pub disconnect : Try (Unit {0})
  disconnect = call disconnected remote.disconnect

  abbrev pub send_command : String → Try String
  send_command command = call (command_sent command) (λ n. remote.send_command n command)

  abbrev pub send_config_set : List String → Try String
  send_config_set commands = call (config_sent commands) (λ n. remote.send_config_set n commands)

  -- `_disconnect`: what it raises is passed over.
  abbrev pub disconnect_quietly : Session → Session
  disconnect_quietly s = (disconnect s).1
