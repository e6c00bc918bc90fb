-- ===== src/Api/Stream.antt =====
-- `ws_job_events` of backend_v2/app/api/main.py. The loop is run over the event stores that it finds
-- at its polls; behind the last of them it is asleep.
pub mod Complete
pub mod Announced
mod Examples
use nw_edit.Prelude.{ℕ, ◌+◌, String, Bool, true, false, ◌==◌, List, [], ◌∷◌, ◌++◌, if◌then◌else◌}
use nw_edit.Stores.EventStore.{ExecutionEvent, EventStore, list_events}

-- The handler polls, has closed the socket, or has met the client's disconnection.
pub data Ending : Type 0 where
  polling closed disconnected : Ending

pub record Socket : Type 0 where
  pub cursor : ℕ
  pub messages : List ExecutionEvent
  pub ending : Ending

abbrev pub accepted_socket : Socket
accepted_socket = record { cursor = 0; messages = []; ending = polling }

abbrev pub is_end : ExecutionEvent → Bool
is_end event = event.type == "job_complete"

-- `accepts n` says whether the client is still there for the message with the number n.
module _ (accepts : ℕ → Bool) where
  -- The loop over the events of one poll.
  unfoldable pub send_events : List ExecutionEvent → Socket → Socket
  send_events [] socket = socket
  send_events (event ∷ events) socket =
      let sent = record socket {
        cursor = socket.cursor + 1;
        messages = socket.messages ++ event ∷ [];
      } in
      let later = send_events events sent in
      if accepts socket.cursor
      then if is_end event then record sent { ending = closed } else later
      else record socket { ending = disconnected }

  -- A poll; a handler that has returned polls no more.
  unfoldable pub poll : String → EventStore → Socket → Socket
  poll job_id store socket = elim socket.ending [
    | polling ↦ send_events (list_events store job_id socket.cursor) socket
    | closed ↦ socket
    | disconnected ↦ socket
  ]

  unfoldable pub ws_job_events : String → List EventStore → Socket → Socket
  ws_job_events job_id [] socket = socket
  ws_job_events job_id (store ∷ stores) socket =
      ws_job_events job_id stores (poll job_id store socket)
