-- ===== src/Api/Stream/Examples.antt =====
-- A client that polls before a run has begun, during it and behind its end.
use nw_edit.Prelude.{ℕ, String, ◌≡◌, refl, Bool, true, none, inr, List, [], ◌∷◌}
use nw_edit.Dict
use nw_edit.Stores.EventStore.{ExecutionEvent, EventStore, events_of}
use nw_edit.Engine.Run.{finished}
use nw_edit.Engine.RunJob.{run_job}
use nw_edit.Engine.Examples.{setup, world, good_job}
use nw_edit.Domain.Models.{device_key}
use nw_edit.Api.Stream.{accepted_socket, ws_job_events}
use nw_edit.Api.Stream.Announced.{Interleaving, nothing, ours, theirs, IsAnnounced, run_is_streamed}
use nw_edit.Api.Stream.Complete.{IsGrowing, up_to_end, ending_of, last_events, ws_job_events_lem}

abbrev event : String → ExecutionEvent
event type = record {
  type = type;
  job_id = "j1";
  timestamp = "now";
  device = none;
  status = none;
  message = none;
}

abbrev seen : List EventStore
seen =
    []
    ∷ (("j1", event "job_status" ∷ []) ∷ [])
    ∷ (("j1", event "job_status" ∷ event "job_complete" ∷ event "job_status" ∷ []) ∷ [])
    ∷ []

abbrev accepting : ℕ → Bool
accepting n = true

seen-IsGrowing : IsGrowing "j1" [] seen
unfolding events_of Dict.get
seen-IsGrowing = (
  ([], refl),
  ((event "job_status" ∷ [], refl), ((event "job_complete" ∷ event "job_status" ∷ [], refl), tt)),
)

ws_job_events_lem_example :
    ((ws_job_events accepting "j1" seen accepted_socket).messages
      ≡ up_to_end (last_events "j1" [] seen))
    × ((ws_job_events accepting "j1" seen accepted_socket).ending
        ≡ ending_of (last_events "j1" [] seen))
ws_job_events_lem_example = ws_job_events_lem accepting (λ n. refl) "j1" seen seen-IsGrowing

-- The events of a run, behind the one of the endpoint that has started it.
abbrev good_events : List ExecutionEvent
good_events = (run_job setup world good_job 1 4).1.main.events

abbrev polled : List EventStore
polled =
    (("j1", event "job_status" ∷ []) ∷ []) ∷ (("j1", event "job_status" ∷ good_events) ∷ []) ∷ []

polled-IsGrowing : IsGrowing "j1" [] polled
unfolding events_of Dict.get
polled-IsGrowing = ((event "job_status" ∷ [], refl), ((good_events, refl), tt))

all_ours : (xs : List ExecutionEvent) → Interleaving xs [] xs
all_ours [] = nothing
all_ours (x ∷ xs) = ours (all_ours xs)

good_run_returns : (run_job setup world good_job 1 4).0 ≡ finished
unfolding run_job device_key Dict.put
good_run_returns = refl

run_is_streamed_example :
    IsAnnounced
      (run_job setup world good_job 1 4).1
      (ws_job_events accepting "j1" polled accepted_socket)
unfolding events_of Dict.get
run_is_streamed_example =
    run_is_streamed setup world good_job refl 1 4 good_run_returns accepting (λ n. refl) polled
      polled-IsGrowing (event "job_status" ∷ []) (inr refl, tt) (theirs (all_ours good_events))
