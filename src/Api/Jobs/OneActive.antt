-- ===== src/Api/Jobs/OneActive.antt =====
-- At most one job is active at a time.
use nw_edit.Prelude.{
  ℕ, ◌+◌, String, ◌≡◌, refl, Option, none, some, List, [], ◌∷◌, arith, if◌then◌else◌, length,
  filter,
}
use nw_edit.Dict
use nw_edit.Dict.{Dict}
use nw_edit.Domain.Models.{JobRecord, is_active_job}
use nw_edit.Stores.JobStore
use nw_edit.Stores.JobStore.{JobStore}
use nw_edit.Api.Jobs.{insert_newest, newest_first, first_active}

-- The number of active jobs of a list.
abbrev pub active_count : List JobRecord → ℕ
active_count jobs = length (filter is_active_job jobs)

abbrev pub one : Option JobRecord → ℕ
one none = 0
one (some job) = if is_active_job job then 1 else 0

-- A write replaces the job that was stored under the key.
pub active_count-put :
    (jobs : JobStore) (k : String) (job : JobRecord)
    → active_count (JobStore.list (Dict.put jobs k job)) + one (Dict.get jobs k)
      ≡ active_count (JobStore.list jobs) + one (some job)
unfolding JobStore.list Dict.put Dict.get
active_count-put [] k job = ground arith
active_count-put ((j, other) ∷ jobs) k job = ground (arith, active_count-put jobs k job)

active_count-insert_newest :
    (job : JobRecord) (jobs : List JobRecord)
    → active_count (insert_newest job jobs) ≡ one (some job) + active_count jobs
unfolding insert_newest
active_count-insert_newest job [] = ground arith
active_count-insert_newest job (other ∷ jobs) = ground (arith, active_count-insert_newest job jobs)

pub active_count-newest_first :
    (jobs : List JobRecord) → active_count (newest_first jobs) ≡ active_count jobs
unfolding newest_first
active_count-newest_first [] = refl
active_count-newest_first (job ∷ jobs) =
    ground
      (arith, active_count-insert_newest job (newest_first jobs), active_count-newest_first jobs)

pub first_active-none : (jobs : List JobRecord) → first_active jobs ≡ none → active_count jobs ≡ 0
unfolding first_active
first_active-none [] h = refl
first_active-none (job ∷ jobs) h = ground (arith, first_active-none jobs)
