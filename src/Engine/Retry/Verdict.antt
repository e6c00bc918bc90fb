-- ===== src/Engine/Retry/Verdict.antt =====
-- What `_run_with_retry` may answer, and when.
use nw_edit.Prelude.{
  ℕ, zero, suc, ◌+◌, ◌≤◌, ◌≡◌, refl, ◌≢◌, inl, inr, true, Option, none, some, arith, ◌==◌, eq_iff,
  Bool-cases,
}
use nw_edit.Result.{Error}
use nw_edit.Domain.Models.{target_key, DeviceExecutionResult}
use nw_edit.Engine.Env.{Reply, returned, raised, Reply-cases, Env, Thread, Setup, tick, cancel_seen}
use nw_edit.Engine.Retry.{
  rounds_of, Task, task_commands, task_verify_commands, cancelled_result, no_result, numbered,
  last_or_none, announcement, log_if, attempts_from, run_with_retry,
}

module _ (setup : Setup) (env : Env) (task : Task) where
  -- The worker's answer when it is called, at some time, with the device's own commands.
  abbrev pub answer_at : ℕ → Reply
  answer_at clock = env.reply clock task.device (task_commands task) (task_verify_commands task)

  -- The answers that are possible with `rounds` rounds.
  pub data Verdict (rounds : ℕ) (reply : Reply) : Type 0 where
    -- attempt number `n` succeeded
    succeeded :
        (n clock : ℕ) (answer : DeviceExecutionResult)
        → 1 ≤ n
        → n ≤ rounds
        → answer_at clock ≡ returned answer
        → answer.status ≡ "success"
        → reply ≡ returned (numbered n answer)
        → Verdict rounds reply
    -- every attempt failed, and the answer to the last one is returned
    gave_up :
        (clock : ℕ) (answer : DeviceExecutionResult)
        → 1 ≤ rounds
        → answer_at clock ≡ returned answer
        → answer.status ≢ "success"
        → reply ≡ returned (numbered rounds answer)
        → Verdict rounds reply
    -- the cancel flag was seen set before attempt number `n`
    stopped :
        (n : ℕ) (thread : Thread)
        → 1 ≤ n
        → n ≤ rounds
        → cancel_seen setup env thread ≡ true
        → reply ≡ returned (cancelled_result n)
        → Verdict rounds reply
    -- the worker raised
    broke :
        (clock : ℕ) (error : Error)
        → answer_at clock ≡ raised error
        → reply ≡ raised error
        → Verdict rounds reply
    -- there was no round
    idle : rounds ≡ 0 → reply ≡ returned (no_result 0) → Verdict rounds reply

  -- What is known of `last_result` behind `attempt` rounds.
  abbrev LastOf : ℕ → Option DeviceExecutionResult → Type 0
  LastOf attempt none = attempt ≡ 0
  LastOf attempt (some result) =
      (1 ≤ attempt)
      × ((clock : ℕ) × (answer : DeviceExecutionResult) × (answer_at clock ≡ returned answer)
          × (answer.status ≢ "success")
          × (result ≡ numbered attempt answer))

  end-Verdict :
      (attempt : ℕ) (last : Option DeviceExecutionResult)
      → LastOf attempt last
      → Verdict attempt (returned (last_or_none attempt last))
  end-Verdict attempt none h = idle h (rw h refl)
  end-Verdict attempt (some result) (some_round, (clock, answer, a, bad, e)) =
      gave_up clock answer some_round a bad (rw e refl)

  attempts_from-Verdict :
      (left attempt rounds : ℕ) (last : Option DeviceExecutionResult) (thread : Thread)
      → LastOf attempt last
      → attempt + left ≡ rounds
      → Verdict rounds (attempts_from setup env task left attempt last thread).0
  unfolding attempts_from
  attempts_from-Verdict zero attempt rounds last thread h t =
      let same : attempt ≡ rounds = omega arith in rw (← same) (end-Verdict attempt last h)
  attempts_from-Verdict (suc left) attempt rounds last thread h t =
      elim (Bool-cases (cancel_seen setup env thread)) [
        | inl seen ↦
            rw (seen, attempts_from)
              (stopped (attempt + 1) thread (omega arith) (omega arith) seen refl)
        | inr clear ↦
            rw (clear, attempts_from)
              (let device = target_key task.device in
                let called =
                  log_if setup env task.job_id device (announcement task attempt) (tick thread) in
                elim (Reply-cases (answer_at called.clock)) [
                  | inr (error, e) ↦ rw e (broke called.clock error e refl)
                  | inl (answer, e) ↦ rw e (elim (Bool-cases (answer.status == "success")) [
                    | inl good ↦ rw good (
                        succeeded (attempt + 1) called.clock answer (omega arith) (omega arith) e
                          ((eq_iff answer.status "success").0 good) refl)
                    | inr bad ↦
                        let failed : answer.status ≢ "success" =
                          λ same. cc (bad, (eq_iff answer.status "success").1 same) in
                        rw bad (
                          attempts_from-Verdict left (attempt + 1) rounds
                            (some (numbered (attempt + 1) answer)) _
                            (omega arith, (called.clock, answer, e, failed, refl)) (omega arith))
                  ])
                ])
      ]

  -- `_run_with_retry` returns an answer of the worker that is a success, numbered by its attempt,
  -- which is one of the first `retry_limit + 1`; or an answer that is none, and then the number is
  -- `retry_limit + 1`, so that no attempt is left; or a cancelled result, if the cancel flag was
  -- seen set before an attempt. It raises only what the worker raised. Without a round (a negative
  -- limit) it returns a failed result with 0 attempts.
  pub run_with_retry-Verdict :
      (thread : Thread)
      → Verdict (rounds_of task.retry_limit) (run_with_retry setup env task thread).0
  unfolding run_with_retry
  run_with_retry-Verdict thread =
      attempts_from-Verdict (rounds_of task.retry_limit) 0 _ none thread refl (omega arith)
