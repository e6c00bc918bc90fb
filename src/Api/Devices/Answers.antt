-- ===== src/Api/Devices/Answers.antt =====
-- What the device endpoints answer and change.
use mathlib.Core.List.{Permᴰ}
use nw_edit.Prelude.{
  ℕ, String, Bool, true, false, ◌==◌, Option, none, some, List, [], ◌∷◌, ℤ, All, length, ◌≡◌, ◌≢◌,
  refl, ◌∙◌, ◌⊎◌, inl, inr, Bool-cases,
}
use nw_edit.Result.{
  Error, value_error, lookup_error, netmiko_error, runtime_error, http_error, Result, ok, err,
}
use nw_edit.Domain.Models.{DeviceProfile, device_key}
use nw_edit.Stores.DeviceStore
use nw_edit.Netmiko.Session.{Remote, Session}
use nw_edit.Netmiko.Execute.Course.{is_open, is_proper}
use nw_edit.Netmiko.Adapters.{params_of}
use nw_edit.Netmiko.Status.{parse_status_commands}
use nw_edit.Netmiko.Status.Closing.{IsExpected, IsClosed, parse_error, run_status_commands-IsClosed}
use nw_edit.DeviceImport.Reader.{Records}
use nw_edit.DeviceImport.Row.{Entry, Loaded}
use nw_edit.DeviceImport.Service.{Imported, import_csv}
use nw_edit.DeviceImport.Service.Order.{range}
use nw_edit.DeviceImport.Service.Effects.{IsStored, IsApplied, import_csv-IsApplied}
use nw_edit.Api.State.{App}
use nw_edit.Api.Devices.{
  ImportAnswer, imported, bad_rows, raised_error, import_answer, import_devices, simulated_status,
  status_answer, run_commands, for_profile, execute_status_command,
}

-- The devices behind an answer of `import_devices`.
abbrev pub IsAnswered : App → ImportAnswer → App → Type 0
IsAnswered before (imported devices) after = (after.devices ≡ devices) × All IsStored devices
IsAnswered before (bad_rows rows) after = (after.devices ≡ before.devices) × (rows ≢ [])
IsAnswered before (raised_error text) after = after.devices ≡ before.devices

applied-IsAnswered :
    (before after : App) (done : Imported)
    → after.devices ≡ done.store
    → IsApplied before.devices done
    → IsAnswered before (import_answer done.outcome) after
unfolding import_answer
applied-IsAnswered before after done same (inl (kept, inl (text, e))) = rw e (same ∙ kept)
applied-IsAnswered before after done same (inl (kept, inr ([], (some_row, e)))) =
    absurd (some_row refl)
applied-IsAnswered before after done same (inl (kept, inr (row ∷ rows, (some_row, e)))) =
    rw e (same ∙ kept, some_row)
applied-IsAnswered before after done same (inr (e, h)) = rw e (same, h)

-- Where every validation finishes, in whichever order: a call of `import_devices` that answers with
-- devices has put just these into the store, each of them complete, with names of variables that the
-- pattern allows and a good connection; any other call leaves the devices as they were, and one that is refused
-- with status 400 names at least one failed row.
pub import_devices-IsAnswered :
    (csv_reader : String → Records) (loads : String → Loaded)
    (validate : DeviceProfile → Bool × Option String) (completion : List Entry → List ℕ)
    → ((entries : List Entry) → Permᴰ (completion entries) (range 0 (length entries)))
    → (csv_content : String) (app : App)
    → IsAnswered app
        (import_devices csv_reader loads validate completion csv_content app).0
        (import_devices csv_reader loads validate completion csv_content app).1
unfolding import_devices
import_devices-IsAnswered csv_reader loads validate completion finish csv_content app =
    applied-IsAnswered app _
      (import_csv csv_reader loads validate app.devices completion csv_content) refl
      (import_csv-IsApplied csv_reader loads validate app.devices completion finish csv_content)

-- An output, or an HTTPException with the status 400, 404 or 502.
abbrev pub IsHttp : Result String → Type 0
IsHttp (ok output) = Unit
IsHttp (err (http_error code text)) = (code ≡ 400) ⊎ ((code ≡ 404) ⊎ (code ≡ 502))
IsHttp (err _) = ⊥

status_answer-IsHttp : (answer : Result String) → IsExpected answer → IsHttp (status_answer answer)
unfolding status_answer
status_answer-IsHttp (ok output) h = tt
status_answer-IsHttp (err (value_error text)) h = inl refl
status_answer-IsHttp (err (runtime_error text)) h = inr (inr refl)
status_answer-IsHttp (err (lookup_error text)) h = absurd h
status_answer-IsHttp (err (netmiko_error text)) h = absurd h
status_answer-IsHttp (err (http_error code text)) h = absurd h

simulated_status-IsExpected :
    (listed : Result (List String))
    → ((e : Error) → listed ≡ err e → IsExpected (err e))
    → IsExpected (simulated_status listed)
unfolding simulated_status
simulated_status-IsExpected (ok cmds) known = tt
simulated_status-IsExpected (err e) known = known e refl

-- A session that ends as it should.
abbrev pub IsRest : Result String × Session → Type 0
IsRest (answer, session) =
    IsHttp answer × ((is_open session.calls ≡ false) × (is_proper session.calls ≡ true))

module _ (remote : Remote) (worker_mode : String) (session : Session) where
  run_commands-IsClosed :
      (commands : String) (profile : DeviceProfile)
      → is_open session.calls ≡ false
      → is_proper session.calls ≡ true
      → IsClosed (run_commands remote worker_mode commands profile session)
  unfolding run_commands
  run_commands-IsClosed commands profile o p = elim (Bool-cases (worker_mode == "netmiko")) [
    | inl e ↦ rw e (run_status_commands-IsClosed remote (params_of profile) commands session o p)
    | inr e ↦ rw e (record {
      closed = o;
      calls_proper = p;
      expected =
          simulated_status-IsExpected (parse_status_commands commands)
            (parse_error remote commands);
    })
  ]

  for_profile-IsRest :
      (profile : Option DeviceProfile) (commands : String)
      → is_open session.calls ≡ false
      → is_proper session.calls ≡ true
      → IsRest (for_profile remote worker_mode commands profile session)
  unfolding for_profile
  for_profile-IsRest none commands o p = (inr (inl refl), (o, p))
  for_profile-IsRest (some profile) commands o p =
      let done = run_commands-IsClosed commands profile o p in
      (status_answer-IsHttp _ done.expected, (done.closed, done.calls_proper))

  -- Whatever the mode of the worker and whatever the device answers or raises: a request for status
  -- commands gets an output, or a refusal with the status 400, 404 or 502; it leaves no connection
  -- open, and commands were sent on an open connection alone.
  pub execute_status_command-IsRest :
      (host : String) (port : ℤ) (commands : String) (app : App)
      → is_open session.calls ≡ false
      → is_proper session.calls ≡ true
      → IsRest (execute_status_command remote worker_mode host port commands app session)
  unfolding execute_status_command
  execute_status_command-IsRest host port commands app o p =
      for_profile-IsRest (DeviceStore.get_by_key app.devices (device_key host port)) commands o p
