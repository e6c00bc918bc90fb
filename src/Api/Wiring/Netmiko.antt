-- ===== src/Api/Wiring/Netmiko.antt =====
-- The engine, the device store and the Netmiko worker together.
use nw_edit.Prelude.{
  ℕ, ◌≤◌, String, ◌≡◌, ap, ◌∙◌, sym, subst, inl, inr, true, false, none, some, List, [], ◌∷◌, arith,
  eq_iff, Option-cases,
}
use nw_edit.Dict
use nw_edit.Domain.Models.{
  completed, DeviceTarget, target_key, DeviceProfile, DeviceExecutionResult,
}
use nw_edit.Stores.DeviceStore
use nw_edit.Stores.DeviceStore.{DeviceStore}
use nw_edit.Stores.Keys.{device_key_injective, get_by_key-device_key}
use nw_edit.Netmiko.Session.{timeout, authentication, other, Outcome, done, raised, Remote, Session}
use nw_edit.Netmiko.Execute.{execute_device_commands}
use nw_edit.Netmiko.Execute.Course.{is_open, is_proper, IsApplied}
use nw_edit.Netmiko.Execute.Whole.{execute_device_commands-IsOver}
use nw_edit.Netmiko.Execute.Sent.{configs}
use nw_edit.Netmiko.Execute.Sent.Once.{execute_device_commands-SentAtMostOnce, reported_was_sent}
use nw_edit.Netmiko.Adapters.{
  params_of, result_from, result_of_run-returns, failed_for, run_netmiko,
}
use nw_edit.Engine.Env.{returned, Setup}
use nw_edit.Engine.Retry.{numbered}
use nw_edit.Engine.Run.{Job, World, finished}
use nw_edit.Engine.RunJob.{run_job}
use nw_edit.Engine.Scheduling.Distinct.{in_devices}
use nw_edit.Engine.Results.Source.{
  commands_for, verify_commands_for, Called, Source, answered, was_cancelled, untried, stranger,
}
use nw_edit.Engine.Results.Provenance.{recorded_results_are_real}
use nw_edit.Engine.Results.Success.{CancelStays, DistinctKeys, completed_all_succeeded}
use nw_edit.Api.Wiring.{Calls, worker_run, reply_of, wired}

-- A conversation with a device.
abbrev pub talk : Remote → DeviceProfile → List String → List String → Session
talk remote profile commands verify_commands =
    (execute_device_commands (record remote { has_cancel_event = false }) (params_of profile)
      commands verify_commands true false).1

-- A successful result of the Netmiko worker: that of a conversation with the device of the target's
-- host and port, by a stored profile, in which the commands were sent, once, their output showed no
-- error, and the connection was closed.
pub record IsConfigured (device : DeviceTarget) (commands verify_commands : List String)
    (result : DeviceExecutionResult) : Type 0 where
  pub remote : Remote
  pub store : DeviceStore
  pub profile : DeviceProfile
  pub found : DeviceStore.get_by_key store (target_key device) ≡ some profile
  pub host : profile.host ≡ device.host
  pub port : profile.port ≡ device.port
  pub attempt : ℕ
  pub is_result :
      result ≡ numbered attempt (result_from (talk remote profile commands verify_commands).result)
  pub applied : IsApplied result.apply_output
  pub no_error : result.error ≡ none
  pub sent : configs (talk remote profile commands verify_commands).calls ≡ commands ∷ []
  pub calls_proper : is_proper (talk remote profile commands verify_commands).calls ≡ true
  pub closed : is_open (talk remote profile commands verify_commands).calls ≡ false

same_done :
    {a b : DeviceExecutionResult}
    → ◌≡◌ {A = Outcome DeviceExecutionResult} (done a) (done b)
    → a ≡ b
same_done e = cc

run_netmiko-IsConfigured :
    (remote : Remote) (store : DeviceStore) (device : DeviceTarget)
    (commands verify_commands : List String) (n : ℕ) (result : DeviceExecutionResult)
    (answer : DeviceExecutionResult)
    → run_netmiko remote store device commands (some verify_commands) ≡ done answer
    → result ≡ numbered n answer
    → result.status ≡ "success"
    → IsConfigured device commands verify_commands result
unfolding run_netmiko
run_netmiko-IsConfigured remote store device commands verify_commands n result answer a e good =
    elim (Option-cases (DeviceStore.get_by_key store (target_key device))) [
      | inl missing ↦
          let found : failed_for device ≡ answer = same_done (rw missing at a) in
          let failed : result.status ≡ "failed" =
            ap (λ r. r.status) (e ∙ ap (numbered n) (sym found)) in
          ground (arith, eq_iff "failed" "success", failed, good)
      | inr (profile, found) ↦
          let over =
            execute_device_commands-IsOver (record remote { has_cancel_event = false })
              (params_of profile) commands verify_commands true false in
          let same : result
              ≡ numbered n (result_from (talk remote profile commands verify_commands).result) =
            let made = same_done (
              sym (
                result_of_run-returns
                  (execute_device_commands (record remote { has_cancel_event = false })
                    (params_of profile) commands verify_commands true false)
                  over.0)
              ∙ (rw found at a)) in
            e ∙ ap (numbered n) (sym made) in
          let status : (talk remote profile commands verify_commands).result.status ≡ "success" =
            sym (ap (λ r. r.status) same) ∙ good in
          elim over.1.verdict [
            | inl (clean, (output, (reported, fine))) ↦ record {
              remote = remote;
              store = store;
              profile = profile;
              found = found;
              host = (get_by_key-device_key store device.host device.port profile found).0;
              port = (get_by_key-device_key store device.host device.port profile found).1;
              attempt = n;
              is_result = same;
              applied = rw same (output, (reported, fine));
              sent =
                  reported_was_sent commands verify_commands
                    (talk remote profile commands verify_commands) output
                    (execute_device_commands-SentAtMostOnce
                      (record remote { has_cancel_event = false }) commands verify_commands
                      (params_of profile) true false)
                    reported;
              no_error = rw same clean.1;
              calls_proper = over.1.calls_proper;
              closed = over.1.closed;
            }
            | inr (inl failed) ↦ ground (arith, eq_iff "failed" "success", failed.0, status)
            | inr (inr stopped) ↦ ground (arith, eq_iff "cancelled" "success", stopped.0, status)
          ]
    ]

module _ (setup : Setup) (calls : Calls) (bare : World) (job : Job) where
  abbrev world : World
  world = wired "netmiko" calls bare

  -- Every call of the worker in such surroundings is one of the Netmiko worker.
  record NetmikoCall (k : String) (answer : DeviceExecutionResult) : Type 0 where
    pub remote : Remote
    pub store : DeviceStore
    pub device : DeviceTarget
    pub key : target_key device ≡ k
    pub is_answer :
        run_netmiko remote store device (commands_for job k) (some (verify_commands_for job k))
        ≡ done answer

  same_reply :
      (out : Outcome DeviceExecutionResult) (answer : DeviceExecutionResult)
      → reply_of out ≡ returned answer
      → out ≡ done answer
  same_reply (done result) answer e = cc
  same_reply (raised (timeout text)) answer e = cc
  same_reply (raised (authentication text)) answer e = cc
  same_reply (raised (other text)) answer e = cc

  answered-NetmikoCall :
      (k : String) (answer : DeviceExecutionResult)
      → Called setup world job k (returned answer)
      → NetmikoCall k answer
  unfolding worker_run
  answered-NetmikoCall k answer called = elim called.thread [
    | inl main ↦
        let (remote, store) = calls.main called.clock in
        record {
          remote = remote;
          store = store;
          device = called.device;
          key = called.key;
          is_answer = same_reply _ answer (rw main at called.reply_is);
        }
    | inr (n, thread) ↦
        let (remote, store) = calls.thread n called.clock in
        record {
          remote = remote;
          store = store;
          device = called.device;
          key = called.key;
          is_answer = same_reply _ answer (rw thread at called.reply_is);
        }
  ]

  same_device : (a b : DeviceTarget) → target_key a ≡ target_key b → a ≡ b
  same_device a b e =
      let (hosts, ports) = device_key_injective a.host b.host a.port b.port e in
      λ i. record { host = hosts i; port = ports i }

  -- What the run made of a device is what the worker made of the job's commands for its key.
  abbrev pub Configured : DeviceTarget → DeviceExecutionResult → Type 0
  Configured device result =
      IsConfigured device (commands_for job (target_key device))
        (verify_commands_for job (target_key device)) result

  Source-Configured :
      (device : DeviceTarget) (result : DeviceExecutionResult)
      → Source setup world job (target_key device) result
      → result.status ≡ "success"
      → Configured device result
  Source-Configured device result (answered answer n few called same) good =
      let key = target_key device in
      let call = answered-NetmikoCall key answer called in
      let commands = commands_for job key in
      let verify = verify_commands_for job key in
      subst (λ d. IsConfigured d commands verify result) (same_device call.device device call.key)
        (run_netmiko-IsConfigured call.remote call.store call.device commands verify n result answer
          call.is_answer same good)
  Source-Configured device result (was_cancelled n few same) good =
      ground (arith, eq_iff "cancelled" "success", ap (λ r. r.status) same, good)
  Source-Configured device result (untried same) good =
      ground (arith, eq_iff "failed" "success", ap (λ r. r.status) same, good)
  Source-Configured device result (stranger key same) good =
      ground (arith, eq_iff "failed" "success", ap (λ r. r.status) same, good)

  -- With the Netmiko worker, whatever the devices answer, whatever the device store holds at each
  -- call and however the run ends: each result recorded for a device as a success is that of a
  -- conversation, by a stored profile of the device's host and port, in which the job's commands for
  -- its key were sent, in one call, their output showed no error, and the connection was closed.
  pub recorded-Configured :
      (polls fuel : ℕ) (device : DeviceTarget) (result : DeviceExecutionResult)
      → Dict.get (run_job setup world job polls fuel).1.summary.device_results (target_key device)
        ≡ some result
      → result.status ≡ "success"
      → Configured device result
  recorded-Configured polls fuel device result recorded =
      Source-Configured device result
        (recorded_results_are_real setup world job polls fuel (target_key device) result recorded)

  -- With the Netmiko worker, when a run returns `completed`, every target has the result of a
  -- conversation, by a stored profile of its host and port, in which the job's commands for its key
  -- were sent, in one call, their output showed no error, and the connection was closed; provided
  -- that no two targets share a key and that a cancel flag once seen set stays set.
  pub completed-Configured :
      CancelStays setup bare job
      → DistinctKeys setup bare job
      → (device : DeviceTarget) → 1 ≤ in_devices (target_key device) job.devices
      → (polls fuel : ℕ) → (run_job setup world job polls fuel).0 ≡ finished
      → (run_job setup world job polls fuel).1.summary.status ≡ completed
      → (result : DeviceExecutionResult) × (Dict.get
            (run_job setup world job polls fuel).1.summary.device_results
            (target_key device)
          ≡ some result)
        × Configured device result
  completed-Configured stays distinct device target polls fuel ended is_done =
      let (result, recorded, good) =
        completed_all_succeeded setup world job stays distinct (target_key device) target polls fuel
          ended is_done in
      (result, recorded, recorded-Configured polls fuel device result recorded good)
