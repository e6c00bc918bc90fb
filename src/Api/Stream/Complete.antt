-- ===== src/Api/Stream/Complete.antt =====
-- What a client of the event stream receives.
use mathlib.Core.List.{append-nil}
use nw_edit.Prelude.{
  ℕ, ◌+◌, String, Bool, true, false, ◌||◌, any, List, [], ◌∷◌, ◌++◌, length, if◌then◌else◌, ◌≡◌,
  refl, sym, ap, ◌∙◌, inl, inr, arith, Bool-cases, length-append, subst,
}
use nw_edit.Stores.EventStore.{ExecutionEvent, EventStore, events_of, drop, list_events}
use nw_edit.Api.Stream.{
  Ending, polling, closed, disconnected, Socket, accepted_socket, is_end, send_events, poll,
  ws_job_events,
}

-- The events up to the first `job_complete`, which is among them.
unfoldable pub up_to_end : List ExecutionEvent → List ExecutionEvent
up_to_end [] = []
up_to_end (event ∷ events) =
    let later = up_to_end events in if is_end event then event ∷ [] else event ∷ later

abbrev pub ending_of : List ExecutionEvent → Ending
ending_of events = if any is_end events then closed else polling

-- From events to events, the stores of the polls only add to the job's events.
abbrev pub IsGrowing : String → List ExecutionEvent → List EventStore → Type 0
IsGrowing job_id events [] = Unit
IsGrowing job_id events (store ∷ stores) =
    ((added : List ExecutionEvent) × (events_of store job_id ≡ events ++ added))
    × IsGrowing job_id (events_of store job_id) stores

-- The job's events at the last poll.
abbrev pub last_events : String → List ExecutionEvent → List EventStore → List ExecutionEvent
last_events job_id events [] = events
last_events job_id events (store ∷ stores) = last_events job_id (events_of store job_id) stores

-- A client that has got what there is.
pub record IsServed (events : List ExecutionEvent) (socket : Socket) : Type 0 where
  pub sent : socket.messages ≡ up_to_end events
  pub ended : socket.ending ≡ ending_of events
  pub counted : any is_end events ≡ false → socket.cursor ≡ length events

up_to_end_open :
    (events : List ExecutionEvent) → any is_end events ≡ false → up_to_end events ≡ events
unfolding up_to_end
up_to_end_open [] h = refl
up_to_end_open (event ∷ events) h = ground (arith, up_to_end_open events)

up_to_end-append_open :
    (events added : List ExecutionEvent)
    → any is_end events ≡ false
    → up_to_end (events ++ added) ≡ events ++ up_to_end added
unfolding up_to_end
up_to_end-append_open [] added h = refl
up_to_end-append_open (event ∷ events) added h = ground (arith, up_to_end-append_open events added)

up_to_end-append_closed :
    (events added : List ExecutionEvent)
    → any is_end events ≡ true
    → up_to_end (events ++ added) ≡ up_to_end events
unfolding up_to_end
up_to_end-append_closed [] added h = cc
up_to_end-append_closed (event ∷ events) added h =
    ground (arith, up_to_end-append_closed events added)

any-append :
    (events added : List ExecutionEvent)
    → any is_end (events ++ added) ≡ (any is_end events || any is_end added)
any-append [] added = refl
any-append (event ∷ events) added = ground (arith, any-append events added)

drop-append : (events added : List ExecutionEvent) → drop (length events) (events ++ added) ≡ added
unfolding drop
drop-append [] added = refl
drop-append (event ∷ events) added = drop-append events added

append_assoc : (xs ys zs : List ExecutionEvent) → (xs ++ ys) ++ zs ≡ xs ++ (ys ++ zs)
append_assoc [] ys zs = refl
append_assoc (x ∷ xs) ys zs = ap (◌∷◌ x) (append_assoc xs ys zs)

pub up_to_end_last :
    (event : ExecutionEvent) (events : List ExecutionEvent)
    → is_end event ≡ true
    → up_to_end (event ∷ events) ≡ event ∷ []
unfolding up_to_end
up_to_end_last event events h = rw h refl

list_events_new :
    (job_id : String) (seen added : List ExecutionEvent) (store : EventStore) (cursor : ℕ)
    → events_of store job_id ≡ seen ++ added
    → cursor ≡ length seen
    → list_events store job_id cursor ≡ added
unfolding list_events
list_events_new job_id seen added store cursor grown at_end =
    rw (grown, at_end) (drop-append seen added)

module _ (accepts : ℕ → Bool) (stays : (n : ℕ) → accepts n ≡ true) where
  send_events-IsServed :
      (seen events : List ExecutionEvent) (socket : Socket)
      → any is_end seen ≡ false
      → IsServed seen socket
      → IsServed (seen ++ events) (send_events accepts events socket)
  unfolding send_events
  send_events-IsServed seen [] socket waits served =
      subst (λ events. IsServed events socket) (sym (append-nil seen)) served
  send_events-IsServed seen (event ∷ events) socket waits served =
      let sent_one : Socket = record socket {
        cursor = socket.cursor + 1;
        messages = socket.messages ++ event ∷ [];
      } in
      let now : socket.messages ≡ seen = served.sent ∙ up_to_end_open seen waits in
      elim (Bool-cases (is_end event)) [
        | inl e ↦
            rw (stays socket.cursor, e)
              (record {
                sent =
                    ap (λ m. m ++ event ∷ []) now
                    ∙ sym (
                        up_to_end-append_open seen (event ∷ events) waits
                        ∙ ap (◌++◌ seen) (up_to_end_last event events e));
                ended = ground (arith, any-append seen (event ∷ events));
                counted = λ h. ground (arith, any-append seen (event ∷ events));
              })
        | inr e ↦
            let longer : any is_end (seen ++ event ∷ []) ≡ false =
              ground (arith, any-append seen (event ∷ [])) in
            rw (stays socket.cursor, e)
              (subst (λ all. IsServed all (send_events accepts events sent_one))
                (append_assoc seen (event ∷ []) events)
                (send_events-IsServed (seen ++ event ∷ []) events sent_one longer (record {
                  sent =
                      ap (λ m. m ++ event ∷ []) now
                      ∙ sym (up_to_end_open (seen ++ event ∷ []) longer);
                  ended = ground (arith, served.ended);
                  counted =
                      λ h. ground (arith, served.counted waits, length-append seen (event ∷ []));
                })))
      ]

  -- By the ending of the socket.
  poll-IsServed :
      (job_id : String) (seen added : List ExecutionEvent) (store : EventStore) (cursor : ℕ)
      (messages : List ExecutionEvent) (ending : Ending)
      → events_of store job_id ≡ seen ++ added
      → IsServed seen (record { cursor = cursor; messages = messages; ending = ending })
      → IsServed (seen ++ added) (
          poll accepts job_id store
            (record { cursor = cursor; messages = messages; ending = ending }))
  unfolding poll
  poll-IsServed job_id seen added store cursor messages polling grown served =
      let waits : any is_end seen ≡ false = ground (arith, served.ended) in
      rw (list_events_new job_id seen added store cursor grown (served.counted waits))
        (send_events-IsServed seen added _ waits served)
  poll-IsServed job_id seen added store cursor messages closed grown served =
      let ended : any is_end seen ≡ true = ground (arith, served.ended) in
      record {
        sent = served.sent ∙ sym (up_to_end-append_closed seen added ended);
        ended = ground (arith, any-append seen added);
        counted = λ h. ground (arith, any-append seen added);
      }
  poll-IsServed job_id seen added store cursor messages disconnected grown served =
      ground (arith, served.ended)

  ws_job_events-IsServed :
      (job_id : String) (seen : List ExecutionEvent) (stores : List EventStore) (socket : Socket)
      → IsGrowing job_id seen stores
      → IsServed seen socket
      → IsServed (last_events job_id seen stores) (ws_job_events accepts job_id stores socket)
  unfolding ws_job_events
  ws_job_events-IsServed job_id seen [] socket growing served = served
  ws_job_events-IsServed job_id seen (store ∷ stores) socket ((added, grown), later) served =
      ws_job_events-IsServed job_id (events_of store job_id) stores
        (poll accepts job_id store socket) later
        (rw grown (
          poll-IsServed job_id seen added store socket.cursor socket.messages socket.ending grown
            served))

  -- A client that stays, while the stores of the polls only add to the job's events: it has got the
  -- job's events up to the first `job_complete`, each once and in order, and the socket is closed when
  -- the last poll found a `job_complete`, and only then.
  pub ws_job_events_lem :
      (job_id : String) (stores : List EventStore)
      → IsGrowing job_id [] stores
      → ((ws_job_events accepts job_id stores accepted_socket).messages
          ≡ up_to_end (last_events job_id [] stores))
        × ((ws_job_events accepts job_id stores accepted_socket).ending
            ≡ ending_of (last_events job_id [] stores))
  unfolding up_to_end
  ws_job_events_lem job_id stores growing =
      let first : IsServed [] accepted_socket = record {
        sent = refl;
        ended = refl;
        counted = λ h. refl;
      } in
      let served = ws_job_events-IsServed job_id [] stores accepted_socket growing first in
      (served.sent, served.ended)
