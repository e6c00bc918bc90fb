-- ===== src/Engine/Results/Source.antt =====
-- Where the results of a run come from.
use nw_edit.Prelude.{
  ◌≤◌, max, ℕ, String, ◌≡◌, refl, ◌⊎◌, inl, inr, none, some, List, [], ◌∷◌, ℤ, pos, All, arith,
  ◌==◌, eq_iff, Bool-cases, sym, subst, or_default,
}
use nw_edit.Result.{Error}
use nw_edit.Dict
use nw_edit.Dict.{Dict}
use nw_edit.Domain.Models.{DeviceTarget, target_key, DeviceExecutionResult}
use nw_edit.Engine.Env.{Reply, returned, raised, Env, Thread, new_thread, Setup}
use nw_edit.Engine.Retry.{Task, cancelled_result, no_result, numbered, rounds_of, run_with_retry}
use nw_edit.Engine.Retry.Verdict.{
  answer_at, Verdict, succeeded, gave_up, stopped, broke, idle, run_with_retry-Verdict,
}
use nw_edit.Engine.Run.{Job, Flight, World, task_of, flight_outcome}
use nw_edit.Engine.Course.{CanaryTold, rejected}

-- A predicate on the entries of a dict holds after a write if it holds of what is written.
pub All-put {ℓ κ} :
    {V : Type ℓ} (P : String → V → Type κ) (d : Dict V) (k : String) (v : V)
    → All (λ (entry : String × V). P entry.0 entry.1) d
    → P k v
    → All (λ (entry : String × V). P entry.0 entry.1) (Dict.put d k v)
unfolding Dict.put
All-put P [] k v h p = (p, tt)
All-put P ((j, w) ∷ d) k v h p = elim (Bool-cases (j == k)) [
  | inl same ↦ rw same (subst (λ name. P name v) (sym ((eq_iff j k).0 same)) p, h.1)
  | inr other ↦ rw (other, Dict.put) (h.0, All-put P d k v h.1 p)
]

pub All-get {ℓ κ} :
    {V : Type ℓ} (P : String → V → Type κ) (d : Dict V) (k : String) (v : V)
    → All (λ (entry : String × V). P entry.0 entry.1) d
    → Dict.get d k ≡ some v
    → P k v
unfolding Dict.get
All-get P [] k v h e = cc
All-get P ((j, w) ∷ d) k v h e = elim (Bool-cases (j == k)) [
  | inl same ↦
      let found : w ≡ v = ground (arith, e, same) in
      subst (λ name. P name v) ((eq_iff j k).0 same) (subst (P j) found h.0)
  | inr other ↦ All-get P d k v h.1 (rw (other, Dict.get) at e)
]

-- The commands that a job has for the devices with a key.
abbrev pub commands_for : Job → String → List String
commands_for job k = or_default (Dict.get job.commands_by_device k) []

abbrev pub verify_commands_for : Job → String → List String
verify_commands_for job k = elim job.verify_commands_by_device [
  | none ↦ []
  | some verify ↦ or_default (Dict.get verify k) []
]

module _ (setup : Setup) (world : World) (job : Job) where
  -- The engine's own thread or the thread of a future.
  abbrev pub IsThread : Env → Type 0
  IsThread env = (env ≡ world.main) ⊎ ((n : ℕ) × (env ≡ world.thread n))

  -- A call of the worker by some thread, for a device with the key and with the commands for it.
  pub record Called (k : String) (reply : Reply) : Type 0 where
    pub device : DeviceTarget
    pub key : target_key device ≡ k
    pub env : Env
    pub thread : IsThread env
    pub clock : ℕ
    pub reply_is : env.reply clock device (commands_for job k) (verify_commands_for job k) ≡ reply

  -- The most attempts that a device gets.
  abbrev pub most_attempts : ℕ
  most_attempts = max 1 (rounds_of job.config.non_canary_retry_limit)

  -- What a recorded result is.
  pub data Source (k : String) (result : DeviceExecutionResult) : Type 0 where
    -- the worker's answer, with the number of the attempt
    answered :
        (answer : DeviceExecutionResult) (n : ℕ)
        → n ≤ most_attempts
        → Called k (returned answer)
        → result ≡ numbered n answer
        → Source k result
    -- the cancel flag was seen set before the attempt
    was_cancelled : (n : ℕ) → n ≤ most_attempts → result ≡ cancelled_result n → Source k result
    -- a negative retry limit leaves no attempt
    untried : result ≡ no_result 0 → Source k result
    -- the canary is none of the targets
    stranger : k ≡ target_key job.canary → result ≡ rejected setup world job → Source k result

  same_result : {a b : DeviceExecutionResult} → returned a ≡ returned b → a ≡ b
  same_result e = cc

  module _ (env : Env) (place : IsThread env) (device : DeviceTarget) (retry_limit : ℤ)
      (backoff : ℕ) (few : rounds_of retry_limit ≤ most_attempts) where
    abbrev task : Task
    task = task_of setup world job device retry_limit backoff

    Verdict-Source :
        (rounds : ℕ) (result : DeviceExecutionResult)
        → rounds ≤ most_attempts
        → Verdict setup env task rounds (returned result)
        → Source (target_key device) result
    Verdict-Source rounds result small (succeeded n clock answer low high a good e) =
        answered answer n (omega arith)
          (record {
            device = device;
            key = refl;
            env = env;
            thread = place;
            clock = clock;
            reply_is = a;
          })
          (same_result e)
    Verdict-Source rounds result small (gave_up clock answer low a bad e) =
        answered answer rounds small
          (record {
            device = device;
            key = refl;
            env = env;
            thread = place;
            clock = clock;
            reply_is = a;
          })
          (same_result e)
    Verdict-Source rounds result small (stopped n thread low high seen e) =
        was_cancelled n (omega arith) (same_result e)
    Verdict-Source rounds result small (broke clock error a e) = cc
    Verdict-Source rounds result small (idle none_left e) = untried (same_result e)

    Verdict-Called :
        (rounds : ℕ) (error : Error)
        → Verdict setup env task rounds (raised error)
        → Called (target_key device) (raised error)
    Verdict-Called rounds error (succeeded n clock answer low high a good e) = cc
    Verdict-Called rounds error (gave_up clock answer low a bad e) = cc
    Verdict-Called rounds error (stopped n thread low high seen e) = cc
    Verdict-Called rounds error (broke clock other a e) = record {
      device = device;
      key = refl;
      env = env;
      thread = place;
      clock = clock;
      reply_is = subst (λ reply. answer_at setup env task clock ≡ reply) (sym e) a;
    }
    Verdict-Called rounds error (idle none_left e) = cc

    -- What `_run_with_retry` returns, and what it raises, whatever the thread has done before.
    run_with_retry-Source :
        (thread : Thread) (result : DeviceExecutionResult)
        → (run_with_retry setup env task thread).0 ≡ returned result
        → Source (target_key device) result
    run_with_retry-Source thread result e = Verdict-Source (rounds_of retry_limit) result few (
        subst (Verdict setup env task (rounds_of retry_limit)) e
          (run_with_retry-Verdict setup env task thread))

    run_with_retry-Called :
        (thread : Thread) (error : Error)
        → (run_with_retry setup env task thread).0 ≡ raised error
        → Called (target_key device) (raised error)
    run_with_retry-Called thread error e = Verdict-Called (rounds_of retry_limit) error (
        subst (Verdict setup env task (rounds_of retry_limit)) e
          (run_with_retry-Verdict setup env task thread))

  pub flight_outcome-Source :
      (flight : Flight) (result : DeviceExecutionResult)
      → (flight_outcome setup world job flight).0 ≡ returned result
      → Source (target_key flight.device) result
  unfolding flight_outcome
  flight_outcome-Source flight result e =
      run_with_retry-Source (world.thread flight.future) (inr (flight.future, refl)) flight.device
        job.config.non_canary_retry_limit job.config.retry_backoff_seconds (omega arith) new_thread
        result e

  pub flight_outcome-Called :
      (flight : Flight) (error : Error)
      → (flight_outcome setup world job flight).0 ≡ raised error
      → Called (target_key flight.device) (raised error)
  unfolding flight_outcome
  flight_outcome-Called flight error e =
      run_with_retry-Called (world.thread flight.future) (inr (flight.future, refl)) flight.device
        job.config.non_canary_retry_limit job.config.retry_backoff_seconds (omega arith) new_thread
        error e

  pub canary-Source :
      (result : DeviceExecutionResult)
      → CanaryTold setup world job (returned result)
      → Source (target_key job.canary) result
  canary-Source result (thread, e) =
      run_with_retry-Source world.main (inl refl) job.canary (pos 0) 0 (omega arith) thread result e

  pub canary-Called :
      (error : Error)
      → CanaryTold setup world job (raised error)
      → Called (target_key job.canary) (raised error)
  canary-Called error (thread, e) =
      run_with_retry-Called world.main (inl refl) job.canary (pos 0) 0 (omega arith) thread error e
