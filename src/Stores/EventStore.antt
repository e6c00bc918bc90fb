-- ===== src/Stores/EventStore.antt =====
-- backend_v2/app/application/events.py and
-- backend_v2/app/infrastructure/in_memory_event_store.py. A start index is a natural number: the
-- callers count it up from 0.
use nw_edit.Prelude.{ℕ, zero, suc, ◌+◌, String, Option, List, [], ◌∷◌, ◌++◌, length, or_default}
use nw_edit.Dict
use nw_edit.Dict.{Dict}

pub record ExecutionEvent : Type 0 where
  pub type : String
  pub job_id : String
  pub timestamp : String
  pub device : Option String
  pub status : Option String
  pub message : Option String

abbrev pub EventStore : Type 0
EventStore = Dict (List ExecutionEvent)

-- `self._events_by_job.get(job_id, [])`.
unfoldable pub events_of : EventStore → String → List ExecutionEvent
events_of store job_id = or_default (Dict.get store job_id) []

unfoldable pub publish : EventStore → ExecutionEvent → EventStore
unfolding events_of
publish store event = Dict.put store event.job_id (events_of store event.job_id ++ event ∷ [])

-- `events[start_index:]`.
unfoldable pub drop : ℕ → List ExecutionEvent → List ExecutionEvent
drop zero events = events
drop (suc n) [] = []
drop (suc n) (event ∷ events) = drop n events

unfoldable pub list_events : EventStore → String → ℕ → List ExecutionEvent
unfolding events_of drop
list_events store job_id start_index = drop start_index (events_of store job_id)

unfoldable pub event_count : EventStore → String → ℕ
unfolding events_of
event_count store job_id = length (events_of store job_id)

total : EventStore → ℕ
total [] = 0
total ((job_id, events) ∷ store) = length events + total store

unfoldable pub clear : EventStore → ℕ × EventStore
unfolding total
clear store = (total store, [])
