-- ===== src/Domain/StateMachine/Lifecycle.antt =====
-- What the table of transitions allows over any sequence of accepted events.
use nw_edit.Prelude.{
  ◌≡◌, refl, ◌≢◌, ◌↔◌, ◌⊎◌, inl, inr, true, false, none, some, arith, Option-cases,
}
use nw_edit.Result.{ok, err, value_error}
use nw_edit.Domain.Models.{
  JobStatus, queued, running, paused, completed, failed, cancelled, is_active_job_status, JobEvent,
  start, pause, resume,
}
use nw_edit.Domain.StateMachine.{transitions, invalid_text, can_transition, transition}

-- One accepted transition, and a sequence of such.
infix 40 ◌⟶◌ ◌⟶*◌
pub data ◌⟶◌ (s : JobStatus) (t : JobStatus) : Type 0 where
  step :
      (e : JobEvent)
      → transition s e ≡ ok (record { current = s; event = e; next_status = t })
      → s ⟶ t

pub data ◌⟶*◌ (s : JobStatus) : JobStatus → Type 0 where
  here : s ⟶* s
  next : {t u : JobStatus} → s ⟶* t → t ⟶ u → s ⟶* u

-- A transition is accepted exactly when `can_transition` says so, and then reports the status and
-- the event that it was asked for; otherwise it raises a ValueError that names both.
transition-can_transition :
    (s : JobStatus) (e : JobEvent)
    → ((can_transition s e ≡ true)
        × ((t : JobStatus) × (transition s e
              ≡ ok (record { current = s; event = e; next_status = t }))))
      ⊎ ((can_transition s e ≡ false) × (transition s e ≡ err (value_error (invalid_text s e))))
unfolding can_transition transition
transition-can_transition s e = elim (Option-cases (transitions s e)) [
  | inl h ↦ inr (rw h, rw h)
  | inr (t, h) ↦ inl (rw h, (t, rw h))
]

module _ {s t : JobStatus} where
  -- An accepted transition leaves an active status and never leads to `queued`.
  ⟶_guard : s ⟶ t → (t ≢ queued) × (is_active_job_status s ≡ true)
  unfolding transition
  ⟶_guard (step start h) = ground arith
  ⟶_guard (step _ h) = ground arith

  -- `completed` and `failed` are entered from `running` alone.
  ⟶-finished : s ⟶ t → (t ≡ completed) ⊎ (t ≡ failed) → s ≡ running
  unfolding transition
  ⟶-finished (step start h) f = ground arith
  ⟶-finished (step _ h) f = ground arith

-- Exactly the finished statuses, those that do not block another job, accept no event.
pub stuck_iff_inactive :
    (s : JobStatus)
    → (((e : JobEvent) → can_transition s e ≡ false) ↔ (is_active_job_status s ≡ false))
unfolding can_transition
stuck_iff_inactive queued = ((λ h. cc (h start)), λ h. cc)
stuck_iff_inactive running = ((λ h. cc (h pause)), λ h. cc)
stuck_iff_inactive paused = ((λ h. cc (h resume)), λ h. cc)
stuck_iff_inactive completed = ((λ h. refl), λ h e. refl)
stuck_iff_inactive failed = ((λ h. refl), λ h e. refl)
stuck_iff_inactive cancelled = ((λ h. refl), λ h e. refl)

-- `start` is accepted by `queued` alone.
start_only_queued : (s : JobStatus) → s ≢ queued → can_transition s start ≡ false
unfolding can_transition
start_only_queued queued h = absurd (h refl)
start_only_queued _ h = refl

-- A finished job stays as it is, whatever events are applied to it.
pub ⟶*-inactive : {s t : JobStatus} → is_active_job_status s ≡ false → s ⟶* t → t ≡ s
⟶*-inactive h here = refl
⟶*-inactive h (next r m) = cc (⟶*-inactive h r, (⟶_guard m).1)

-- A job that has been moved once, in any way, never accepts `start` again: a run starts at most
-- once in the life of a job.
pub start_once : {s t u : JobStatus} → s ⟶ t → t ⟶* u → can_transition u start ≡ false
start_once {t} m here = start_only_queued t (⟶_guard m).0
start_once m (next {u = u} r n) = start_only_queued u (⟶_guard n).0

-- A status that a sequence of transitions leaves on its way.
abbrev pub Leaves : (u : JobStatus) {s t : JobStatus} → s ⟶* t → Type 0
Leaves u here = ⊥
Leaves u (next {t = t} path move) = (t ≡ u) ⊎ Leaves u path

-- Every sequence of accepted events that leads a job from `queued` to `completed` or `failed` goes
-- through `running`.
pub finished_ran :
    {t : JobStatus} (path : queued ⟶* t) → (t ≡ completed) ⊎ (t ≡ failed) → Leaves running path
finished_ran here f = ground arith
finished_ran (next path move) f = inl (⟶-finished move f)

-- The answer of `transition` where the table has an entry.
pub transition_of_entry :
    (s : JobStatus) (e : JobEvent) {t : JobStatus}
    → transitions s e ≡ some t
    → transition s e ≡ ok (record { current = s; event = e; next_status = t })
unfolding transition
transition_of_entry s e h = rw h

pub transition_of_none :
    (s : JobStatus) (e : JobEvent)
    → transitions s e ≡ none
    → transition s e ≡ err (value_error (invalid_text s e))
unfolding transition
transition_of_none s e h = rw h
