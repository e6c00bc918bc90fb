-- ===== src/Api/Stream/Announced.antt =====
-- The event stream of a run: `run_job` of execution_engine.py, the event store between its threads
-- and `ws_job_events` of main.py.
use nw_edit.Prelude.{
  ℕ, Bool, true, false, any, some, List, [], ◌∷◌, ◌++◌, ◌≡◌, refl, sym, ap, ◌∙◌, ◌≢◌, ◌⊎◌, inl, inr,
  arith, eq_iff, All, subst,
}
use nw_edit.Domain.Models.{status_value}
use nw_edit.Stores.EventStore.{ExecutionEvent, EventStore}
use nw_edit.Engine.Env.{Setup, new_thread}
use nw_edit.Engine.Run.{Job, World, Run, Flight, finished, task_of, flight_outcome}
use nw_edit.Engine.RunJob.{run_job}
use nw_edit.Engine.Silence.{run_with_retry-IsSilent}
use nw_edit.Engine.Results.LastEvent.{returned_is_announced}
use nw_edit.Api.Stream.{closed, accepted_socket, Socket, is_end, ws_job_events}
use nw_edit.Api.Stream.Complete.{
  up_to_end, up_to_end_last, IsGrowing, last_events, ws_job_events_lem,
}

-- The third list holds the events of the first two, each of them in its order.
pub data Interleaving
    : List ExecutionEvent → List ExecutionEvent → List ExecutionEvent → Type 0 where
  nothing : Interleaving [] [] []
  ours :
      {xs ys zs : List ExecutionEvent} {e : ExecutionEvent}
      → Interleaving xs ys zs
      → Interleaving (e ∷ xs) ys (e ∷ zs)
  theirs :
      {xs ys zs : List ExecutionEvent} {e : ExecutionEvent}
      → Interleaving xs ys zs
      → Interleaving xs (e ∷ ys) (e ∷ zs)

abbrev Quiet : ExecutionEvent → Type 0
Quiet e = e.type ≢ "job_complete"

not_end : (e : ExecutionEvent) → Quiet e → is_end e ≡ false
not_end e q = ground (arith, eq_iff e.type "job_complete")

-- What a reader gets of an interleaving whose first part ends with the only `job_complete`.
record IsCut (last : ExecutionEvent) (xs zs : List ExecutionEvent) : Type 0 where
  before : List ExecutionEvent
  kept : List ExecutionEvent
  split : up_to_end zs ≡ before ++ last ∷ []
  whole : Interleaving xs kept (up_to_end zs)
  ends : any is_end zs ≡ true

up_to_end-cons_quiet :
    (e : ExecutionEvent) (zs : List ExecutionEvent)
    → is_end e ≡ false
    → up_to_end (e ∷ zs) ≡ e ∷ up_to_end zs
unfolding up_to_end
up_to_end-cons_quiet e zs h = rw h refl

module _ (last : ExecutionEvent) (type : last.type ≡ "job_complete") where
  last-is_end : is_end last ≡ true
  last-is_end = ground (arith, eq_iff last.type "job_complete")

  IsCut-first :
      {e : ExecutionEvent} {xs zs : List ExecutionEvent}
      → e ≡ last
      → xs ≡ []
      → IsCut last (e ∷ xs) (e ∷ zs)
  IsCut-first {zs = zs} e none_left =
      let cut = up_to_end_last last zs last-is_end in
      rw (e, none_left)
        (record {
          before = [];
          kept = [];
          split = cut;
          whole = subst (Interleaving (last ∷ []) []) (sym cut) (ours nothing);
          ends = rw last-is_end refl;
        })

  IsCut-ours :
      {e : ExecutionEvent} {xs zs : List ExecutionEvent}
      → Quiet e
      → IsCut last xs zs
      → IsCut last (e ∷ xs) (e ∷ zs)
  IsCut-ours {e} {xs} {zs} quiet cut =
      let longer = up_to_end-cons_quiet e zs (not_end e quiet) in
      record {
        before = e ∷ cut.before;
        kept = cut.kept;
        split = longer ∙ ap (◌∷◌ e) cut.split;
        whole = subst (Interleaving (e ∷ xs) cut.kept) (sym longer) (ours cut.whole);
        ends = rw (not_end e quiet) cut.ends;
      }

  IsCut-theirs :
      {e : ExecutionEvent} {xs zs : List ExecutionEvent}
      → Quiet e
      → IsCut last xs zs
      → IsCut last xs (e ∷ zs)
  IsCut-theirs {e} {xs} {zs} quiet cut =
      let longer = up_to_end-cons_quiet e zs (not_end e quiet) in
      record {
        before = e ∷ cut.before;
        kept = e ∷ cut.kept;
        split = longer ∙ ap (◌∷◌ e) cut.split;
        whole = subst (Interleaving xs (e ∷ cut.kept)) (sym longer) (theirs cut.whole);
        ends = rw (not_end e quiet) cut.ends;
      }

  Interleaving-IsCut :
      {xs ys zs : List ExecutionEvent} (before : List ExecutionEvent)
      → Interleaving xs ys zs
      → xs ≡ before ++ last ∷ []
      → All Quiet before
      → All Quiet ys
      → IsCut last xs zs
  Interleaving-IsCut [] nothing h quiet others = cc
  Interleaving-IsCut (b ∷ before) nothing h quiet others = cc
  Interleaving-IsCut before (theirs i) h quiet others =
      IsCut-theirs others.0 (Interleaving-IsCut before i h quiet others.1)
  Interleaving-IsCut [] (ours i) h quiet others = IsCut-first (cc) (cc)
  Interleaving-IsCut (b ∷ before) (ours {e = e} i) h quiet others =
      let same : e ≡ b = cc in
      IsCut-ours (rw same quiet.0) (Interleaving-IsCut before i (cc) quiet.1 others)

all_at {ℓ κ} :
    {A : Type ℓ} (P : A → Type κ) (before : List A) {x : A} (after : List A)
    → All P (before ++ x ∷ after)
    → P x
all_at P [] after h = h.0
all_at P (_ ∷ before) after h = all_at P before after h.1

-- What a client has received of a run: every event of the engine's own thread, in order, among
-- those of others, and as the last one the `job_complete` with the summary's status.
pub record IsAnnounced (run : Run) (socket : Socket) : Type 0 where
  pub others : List ExecutionEvent
  pub whole : Interleaving run.main.events others socket.messages
  pub before : List ExecutionEvent
  pub last : ExecutionEvent
  pub split : socket.messages ≡ before ++ last ∷ []
  pub type : last.type ≡ "job_complete"
  pub status : last.status ≡ some (status_value run.summary.status)
  pub ending : socket.ending ≡ closed

module _ (setup : Setup) (world : World) (job : Job) where
  -- An event of the thread of a submitted call, or one that the endpoints publish.
  abbrev pub IsElsewhere : ExecutionEvent → Type 0
  IsElsewhere e =
      ((flight : Flight) × ((before : List ExecutionEvent) × ((after : List ExecutionEvent)
            × ((flight_outcome setup world job flight).1.events ≡ before ++ e ∷ after))))
      ⊎ (e.type ≡ "job_status")

  IsElsewhere-Quiet : (e : ExecutionEvent) → IsElsewhere e → Quiet e
  unfolding flight_outcome
  IsElsewhere-Quiet e (inl (flight, (before, (after, split)))) = all_at Quiet before after (
      subst (All Quiet) split (
        run_with_retry-IsSilent setup (world.thread flight.future)
          (task_of setup world job flight.device job.config.non_canary_retry_limit
            job.config.retry_backoff_seconds)
          new_thread tt))
  IsElsewhere-Quiet e (inr status) = ground (arith, eq_iff "job_status" "job_complete")

  IsElsewhere-All : (es : List ExecutionEvent) → All IsElsewhere es → All Quiet es
  IsElsewhere-All [] h = tt
  IsElsewhere-All (e ∷ es) h = (IsElsewhere-Quiet e h.0, IsElsewhere-All es h.1)

  -- With a publisher, a run that returns, and a client that stays, whose polls find more and more
  -- of the job's events and, the last of them, those of the engine's own thread mixed in any order
  -- with events of the threads of the submitted calls and of the endpoints: the client has received
  -- every event of the engine's own thread, in order, and as the last message the `job_complete`
  -- with the status of the summary, and the socket has been closed.
  pub run_is_streamed :
      (on : setup.publisher ≡ true) (polls fuel : ℕ)
      (ends : (run_job setup world job polls fuel).0 ≡ finished) (accepts : ℕ → Bool)
      (stays : (n : ℕ) → accepts n ≡ true) (stores : List EventStore)
      (growing : IsGrowing job.job_id [] stores) (others : List ExecutionEvent)
      (elsewhere : All IsElsewhere others)
      → Interleaving
          (run_job setup world job polls fuel).1.main.events
          others
          (last_events job.job_id [] stores)
      → IsAnnounced
          (run_job setup world job polls fuel).1
          (ws_job_events accepts job.job_id stores accepted_socket)
  run_is_streamed on polls fuel ends accepts stays stores growing others elsewhere mixed =
      let end = returned_is_announced setup world job on polls fuel ends in
      let cut =
        Interleaving-IsCut end.last end.type end.before mixed end.split end.quiet
          (IsElsewhere-All others elsewhere) in
      let got = ws_job_events_lem accepts stays job.job_id stores growing in
      record {
        others = cut.kept;
        whole = subst (Interleaving _ cut.kept) (sym got.0) cut.whole;
        before = cut.before;
        last = end.last;
        split = got.0 ∙ cut.split;
        type = end.type;
        status = end.status;
        ending = got.1 ∙ rw cut.ends refl;
      }
