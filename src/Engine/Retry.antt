-- ===== src/Engine/Retry.antt =====
-- `_run_with_retry` of execution_engine.py. A sleep changes nothing that is modelled.
pub mod Verdict
use nw_edit.Prelude.{
  ℕ, zero, suc, ◌+◌, String, Bool, true, false, ◌&&◌, Option, none, some, List, [], ◌∷◌, ◌++◌, ℤ,
  pos, negsuc, ltb, ◌==◌, length, map, or_default, if◌then◌else◌, join, show,
}
use nw_edit.Dict
use nw_edit.Dict.{Dict}
use nw_edit.Domain.Models.{DeviceTarget, target_key, DeviceExecutionResult, result_of}
use nw_edit.Engine.Env.{Reply, returned, raised, Env, Thread, Setup, tick, cancel_seen, emit}

-- The number of rounds of `range(retry_limit + 1)`.
abbrev pub rounds_of : ℤ → ℕ
rounds_of (pos limit) = suc limit
rounds_of (negsuc _) = 0

-- What stays the same in all attempts on one device. `job_id` is optional, and an empty text counts
-- as none.
pub record Task : Type 0 where
  pub device : DeviceTarget
  pub commands_by_device : Dict (List String)
  pub verify_commands_by_device : Option (Dict (List String))
  pub retry_limit : ℤ
  pub backoff : ℕ
  pub job_id : Option String

abbrev pub task_commands : Task → List String
task_commands task = or_default (Dict.get task.commands_by_device (target_key task.device)) []

abbrev pub task_verify_commands : Task → List String
task_verify_commands task = elim task.verify_commands_by_device [
  | none ↦ []
  | some verify ↦ or_default (Dict.get verify (target_key task.device)) []
]

abbrev pub truthy : String → Bool
truthy text = elim (text == "") [ true ↦ false | false ↦ true ]

module _ (setup : Setup) (env : Env) where
  -- Publishes a log message for each text.
  unfoldable pub log_all : String → String → List String → Thread → Thread
  unfolding emit
  log_all job_id device [] thread = thread
  log_all job_id device (text ∷ texts) thread =
      log_all job_id device texts
        (emit setup env thread "log" job_id (some device) none (some text))

  -- `if job_id:` before a list of log messages.
  unfoldable pub log_if : Option String → String → List String → Thread → Thread
  unfolding log_all
  log_if none device texts thread = thread
  log_if (some job_id) device texts thread =
      if truthy job_id then log_all job_id device texts thread else thread

abbrev pub attempt_text : ℕ → ℕ → List String → List String → String
attempt_text attempt rounds commands verify_commands = join "" (
    "Attempt "
    ∷ show (attempt + 1)
    ∷ "/"
    ∷ show rounds
    ∷ ": "
    ∷ show (length commands)
    ∷ " apply command(s), "
    ∷ show (length verify_commands)
    ∷ " verify command(s)"
    ∷ [])

-- The messages before the worker is called.
abbrev pub announcement : Task → ℕ → List String
announcement task attempt =
    attempt_text attempt (rounds_of task.retry_limit) (task_commands task)
      (task_verify_commands task)
    ∷ (map (λ command. join "" ("apply> " ∷ command ∷ [])) (task_commands task)
        ++ map (λ command. join "" ("verify> " ∷ command ∷ [])) (task_verify_commands task))

abbrev pub retry_text : Env → Task → ℕ → String
retry_text env task attempt = join "" (
    "Attempt "
    ∷ show (attempt + 1)
    ∷ " failed, retrying in "
    ∷ env.format_seconds task.backoff
    ∷ "s"
    ∷ [])

abbrev pub cancelled_result : ℕ → DeviceExecutionResult
cancelled_result attempts = record (result_of "cancelled") {
  error = some "Execution cancelled";
  attempts = attempts;
}

abbrev pub no_result : ℕ → DeviceExecutionResult
no_result attempts = record (result_of "failed") {
  error = some "No execution result";
  attempts = attempts;
}

-- `result.attempts = attempts`.
abbrev pub numbered : ℕ → DeviceExecutionResult → DeviceExecutionResult
numbered attempts answer = record answer { attempts = attempts }

abbrev pub last_or_none : ℕ → Option DeviceExecutionResult → DeviceExecutionResult
last_or_none attempts none = no_result attempts
last_or_none attempts (some result) = result

module _ (setup : Setup) (env : Env) (task : Task) where
  -- `if job_id and attempt < retry_limit:` there are `left` more rounds.
  unfoldable pub before_retry : (left attempt : ℕ) → Thread → Thread
  unfolding log_if
  before_retry zero attempt thread = thread
  before_retry (suc left) attempt thread =
      log_if setup env task.job_id (target_key task.device) (retry_text env task attempt ∷ [])
        thread

  -- The `for` loop from attempt number `attempt` on, with `left` rounds to go.
  unfoldable pub attempts_from :
      (left attempt : ℕ) → Option DeviceExecutionResult → Thread → Reply × Thread
  unfolding log_if before_retry
  attempts_from zero attempt last thread = (returned (last_or_none attempt last), thread)
  attempts_from (suc left) attempt last thread = elim (cancel_seen setup env thread) [
    | true ↦ (returned (cancelled_result (attempt + 1)), tick thread)
    | false ↦
        let device = target_key task.device in
        let called =
          log_if setup env task.job_id device (announcement task attempt) (tick thread) in
        elim (env.reply called.clock task.device (task_commands task) (task_verify_commands task)) [
          | raised e ↦ (raised e, tick called)
          | returned answer ↦
              let heard = log_if setup env task.job_id device answer.logs (tick called) in
              let result = numbered (attempt + 1) answer in
              elim (result.status == "success") [
                | true ↦ (returned result, heard)
                | false ↦
                    attempts_from left (attempt + 1) (some result) (before_retry left attempt heard)
              ]
        ]
  ]

  unfoldable pub run_with_retry : Thread → Reply × Thread
  unfolding attempts_from
  run_with_retry = attempts_from (rounds_of task.retry_limit) 0 none
