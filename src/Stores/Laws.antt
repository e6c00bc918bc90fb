-- ===== src/Stores/Laws.antt =====
-- What a reader of a store sees after a write.
use nw_edit.Prelude.{
  ℕ, zero, suc, ◌≤◌, String, ◌≡◌, refl, some, List, [], ◌∷◌, ◌++◌, arith, ◌==◌, eq_iff, length,
  Option-cases, inl, inr, if◌then◌else◌,
}
use nw_edit.Dict
use nw_edit.Dict.Laws.{get-put}
use nw_edit.Domain.Models.{JobRecord}
use nw_edit.Stores.JobStore
use nw_edit.Stores.JobStore.{JobStore}
use nw_edit.Stores.EventStore
use nw_edit.Stores.EventStore.{EventStore, ExecutionEvent, drop, events_of}
use nw_edit.Stores.ControlStore
use nw_edit.Stores.ControlStore.{ControlStore, ExecutionControl, new_control}

pub get-save :
    (jobs : JobStore) (job : JobRecord) (k : String)
    → JobStore.get (JobStore.save jobs job) k
      ≡ (if job.job_id == k then some job else JobStore.get jobs k)
unfolding JobStore.get JobStore.save
get-save jobs job k = get-put jobs job.job_id job k

pub get-set_control :
    (controls : ControlStore) (job_id : String) (control : ExecutionControl) (k : String)
    → ControlStore.get (ControlStore.set_control controls job_id control) k
      ≡ (if job_id == k then some control else ControlStore.get controls k)
unfolding ControlStore.get ControlStore.set_control
get-set_control controls job_id control k = get-put controls job_id control k

-- The control that is handed out is the one that is stored from then on, and the other jobs keep
-- theirs.
pub get-get_or_create :
    (controls : ControlStore) (job_id k : String)
    → let (control, after) = ControlStore.get_or_create controls job_id in
      ControlStore.get after k ≡ (if job_id == k then some control else ControlStore.get controls k)
unfolding ControlStore.get ControlStore.get_or_create
get-get_or_create controls job_id k = elim (Option-cases (Dict.get controls job_id)) [
  | inl absent ↦ rw absent (get-put controls job_id new_control k)
  | inr (control, here) ↦ rw here (ground (arith, here, eq_iff job_id k))
]

drop-append :
    (n : ℕ) (xs ys : List ExecutionEvent) → n ≤ length xs → drop n (xs ++ ys) ≡ drop n xs ++ ys
unfolding drop
drop-append zero xs ys h = refl
drop-append (suc n) [] ys h = absurd (omega arith)
drop-append (suc n) (x ∷ xs) ys h = drop-append n xs ys (omega arith)

-- A reader of job `k` whose cursor is not past the end sees what it would have seen before the
-- event was published, and behind it the event if it is one of job `k`; no other reader sees it.
pub list_events-publish :
    (store : EventStore) (event : ExecutionEvent) (k : String) (cursor : ℕ)
    → cursor ≤ EventStore.event_count store k
    → EventStore.list_events (EventStore.publish store event) k cursor ≡ (
        if event.job_id == k
        then EventStore.list_events store k cursor ++ event ∷ []
        else EventStore.list_events store k cursor)
unfolding EventStore.list_events EventStore.publish EventStore.event_count
list_events-publish store event k cursor h = ground (
  arith,
  eq_iff event.job_id k,
  get-put store event.job_id (events_of store event.job_id ++ event ∷ []) k,
  drop-append cursor (events_of store k) (event ∷ []),
)
