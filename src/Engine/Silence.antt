-- ===== src/Engine/Silence.antt =====
-- The engine's own thread publishes `job_complete` only as its last event: everything before the
-- end of the run is silent.
use nw_edit.Prelude.{
  ℕ, zero, suc, ◌+◌, String, ◌≢◌, Option, none, some, List, [], ◌∷◌, ◌++◌, arith, ◌==◌, eq_iff, All,
  Bool-cases, inl, inr,
}
use nw_edit.Domain.Models.{DeviceTarget, target_key, DeviceExecutionResult}
use nw_edit.Stores.EventStore.{ExecutionEvent}
use nw_edit.Engine.Env.{Reply, Reply-cases, Env, Thread, Setup, tick, cancel_seen, emit}
use nw_edit.Engine.Retry.{
  Task, task_commands, task_verify_commands, truthy, announcement, log_all, log_if, before_retry,
  attempts_from, run_with_retry,
}
use nw_edit.Engine.Run.{Job, World, Run, launch, record_result, take_out}
use nw_edit.Engine.RunJob.{announce_queued}
use nw_edit.Engine.Steps.{Step, observe, begin, give_up, drop_cancelled, land, ◌⟶*◌, here, next}

abbrev pub IsSilent : Thread → Type 0
IsSilent thread = All (λ (e : ExecutionEvent). e.type ≢ "job_complete") thread.events

All-snoc {ℓ κ} :
    {A : Type ℓ} (P : A → Type κ) (xs : List A) (x : A) → All P xs → P x → All P (xs ++ x ∷ [])
All-snoc P [] x h p = (p, tt)
All-snoc P (y ∷ xs) x h p = (h.0, All-snoc P xs x h.1 p)

log_not_last : ◌≢◌ {A = String} "log" "job_complete"
log_not_last = ground (arith, eq_iff "log" "job_complete")

pub status_not_last : ◌≢◌ {A = String} "device_status" "job_complete"
status_not_last = ground (arith, eq_iff "device_status" "job_complete")

module _ (setup : Setup) (env : Env) where
  pub emit-IsSilent :
      (thread : Thread) (event_type job_id : String) (device status message : Option String)
      → event_type ≢ "job_complete"
      → IsSilent thread
      → IsSilent (emit setup env thread event_type job_id device status message)
  unfolding emit
  emit-IsSilent thread event_type job_id device status message h s =
      elim (Bool-cases setup.publisher) [
        | inl on ↦ rw (on, emit) (All-snoc _ thread.events _ s h)
        | inr off ↦ rw (off, emit) s
      ]

  log_all-IsSilent :
      (job_id device : String) (texts : List String) (thread : Thread)
      → IsSilent thread
      → IsSilent (log_all setup env job_id device texts thread)
  unfolding log_all
  log_all-IsSilent job_id device [] thread s = s
  log_all-IsSilent job_id device (text ∷ texts) thread s =
      log_all-IsSilent job_id device texts _
        (emit-IsSilent thread "log" job_id (some device) none (some text) log_not_last s)

  log_if-IsSilent :
      (job_id : Option String) (device : String) (texts : List String) (thread : Thread)
      → IsSilent thread
      → IsSilent (log_if setup env job_id device texts thread)
  unfolding log_if
  log_if-IsSilent none device texts thread s = s
  log_if-IsSilent (some job_id) device texts thread s = elim (Bool-cases (truthy job_id)) [
    | inl yes_log ↦ rw (yes_log, log_if) (log_all-IsSilent job_id device texts thread s)
    | inr no_log ↦ rw (no_log, log_if) s
  ]

module _ (setup : Setup) (env : Env) (task : Task) where
  abbrev reply_at : Thread → Reply
  reply_at called =
      env.reply called.clock task.device (task_commands task) (task_verify_commands task)

  before_retry-IsSilent :
      (left attempt : ℕ) (thread : Thread)
      → IsSilent thread
      → IsSilent (before_retry setup env task left attempt thread)
  unfolding before_retry
  before_retry-IsSilent zero attempt thread s = s
  before_retry-IsSilent (suc left) attempt thread s =
      log_if-IsSilent setup env task.job_id (target_key task.device) _ thread s

  attempts_from-IsSilent :
      (left attempt : ℕ) (last : Option DeviceExecutionResult) (thread : Thread)
      → IsSilent thread
      → IsSilent (attempts_from setup env task left attempt last thread).1
  unfolding attempts_from
  attempts_from-IsSilent zero attempt last thread s = s
  attempts_from-IsSilent (suc left) attempt last thread s =
      elim (Bool-cases (cancel_seen setup env thread)) [
        | inl seen ↦ rw (seen, attempts_from) s
        | inr clear ↦
            rw (clear, attempts_from)
              (let device = target_key task.device in
                let called =
                  log_if setup env task.job_id device (announcement task attempt) (tick thread) in
                let called-IsSilent =
                  log_if-IsSilent setup env task.job_id device (announcement task attempt)
                    (tick thread) s in
                elim (Reply-cases (reply_at called)) [
                  | inr (error, e) ↦ rw e called-IsSilent
                  | inl (answer, e) ↦ rw e (
                      let heard = log_if setup env task.job_id device answer.logs (tick called) in
                      let heard-IsSilent =
                        log_if-IsSilent setup env task.job_id device answer.logs (tick called)
                          called-IsSilent in
                      elim (Bool-cases (answer.status == "success")) [
                        | inl good ↦ rw good heard-IsSilent
                        | inr bad ↦ rw bad (
                            attempts_from-IsSilent left (attempt + 1) _ _
                              (before_retry-IsSilent left attempt heard heard-IsSilent))
                      ])
                ])
      ]

  pub run_with_retry-IsSilent :
      (thread : Thread) → IsSilent thread → IsSilent (run_with_retry setup env task thread).1
  unfolding run_with_retry
  run_with_retry-IsSilent thread s = attempts_from-IsSilent _ 0 none thread s

module _ (setup : Setup) (world : World) (job : Job) where
  pub record_result-IsSilent :
      (device : DeviceTarget) (result : DeviceExecutionResult) (run : Run)
      → IsSilent run.main
      → IsSilent (record_result setup world job device result run).main
  unfolding record_result
  record_result-IsSilent device result run s =
      emit-IsSilent setup world.main run.main _ _ _ _ _ status_not_last s

  pub announce_queued-IsSilent :
      (devices : List DeviceTarget) (run : Run)
      → IsSilent run.main
      → IsSilent (announce_queued setup world job devices run).main
  unfolding announce_queued
  announce_queued-IsSilent [] run s = s
  announce_queued-IsSilent (device ∷ devices) run s =
      announce_queued-IsSilent devices _
        (emit-IsSilent setup world.main run.main _ _ _ _ _ status_not_last s)

  Step-IsSilent :
      {run after : Run} → Step setup world job run after → IsSilent run.main → IsSilent after.main
  unfolding launch
  Step-IsSilent (observe clock later e) s = rw e s
  Step-IsSilent {run} (begin device rest p room good look last clear e) s =
      rw e (emit-IsSilent setup world.main run.main _ _ _ _ _ status_not_last s)
  Step-IsSilent (give_up bad e) s = rw e s
  Step-IsSilent (drop_cancelled seen e) s = rw e s
  Step-IsSilent {run} (land place flight flights result f o e) s =
      rw e (record_result-IsSilent (take_out place flight flights).0.device result run s)

  pub moves-IsSilent :
      {start run : Run} → ◌⟶*◌ setup world job start run → IsSilent start.main → IsSilent run.main
  moves-IsSilent here s = s
  moves-IsSilent (next r t) s = Step-IsSilent t (moves-IsSilent r s)
