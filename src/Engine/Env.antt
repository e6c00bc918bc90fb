-- ===== src/Engine/Env.antt =====
-- What a thread of the engine observes and publishes (execution_engine.py, `_emit`).
use nw_edit.Prelude.{
  ℕ, ◌+◌, String, Bool, true, false, ◌&&◌, Option, List, [], ◌∷◌, ◌++◌, ◌≡◌, refl, ◌⊎◌, inl, inr,
}
use nw_edit.Result.{Error}
use nw_edit.Domain.Models.{DeviceTarget, DeviceExecutionResult}
use nw_edit.Stores.EventStore.{ExecutionEvent}

-- `DeviceWorker.run` returns a result or raises.
pub data Reply : Type 0 where
  returned : DeviceExecutionResult → Reply
  raised : Error → Reply

pub Reply-cases :
    (reply : Reply)
    → ((result : DeviceExecutionResult) × (reply ≡ returned result))
      ⊎ ((error : Error) × (reply ≡ raised error))
Reply-cases (returned result) = inl (result, refl)
Reply-cases (raised error) = inr (error, refl)

-- Each read of the clock or of a flag and each call of the worker by one thread has a number, and
-- the environment is a function of that number: the flags may be changed by other threads between
-- any two reads, and two calls of the worker may answer differently. `format_seconds` is the text
-- of `f"{backoff:.1f}"`; a float enters the code only there and in the comparison with 0 that
-- guards a sleep, and is given here in milliseconds.
pub record Env : Type 0 where
  pub utc_now : ℕ → String
  pub pause : ℕ → Bool
  pub cancel : ℕ → Bool
  pub reply : ℕ → DeviceTarget → List String → List String → Reply
  pub format_seconds : ℕ → String

-- How far a thread has come: the number of its next observation, and what it has published.
pub record Thread : Type 0 where
  pub clock : ℕ
  pub events : List ExecutionEvent

abbrev pub new_thread : Thread
new_thread = record { clock = 0; events = [] }

-- What the engine was given once and for all: whether there is a publisher, and whether the run has
-- an ExecutionControl. Without a control no flag is ever seen set.
pub record Setup : Type 0 where
  pub publisher : Bool
  pub control : Bool

abbrev pub tick : Thread → Thread
tick thread = record thread { clock = thread.clock + 1 }

-- `control and control.cancel_event.is_set()` and the like for `pause_event`.
abbrev pub cancel_seen : Setup → Env → Thread → Bool
cancel_seen setup env thread = setup.control && env.cancel thread.clock

abbrev pub pause_seen : Setup → Env → Thread → Bool
pause_seen setup env thread = setup.control && env.pause thread.clock

-- The event that `_emit` builds and publishes.
abbrev pub event_at :
    Env → Thread → String → String → Option String → Option String → Option String → ExecutionEvent
event_at env thread event_type job_id device status message = record {
  type = event_type;
  job_id = job_id;
  timestamp = env.utc_now thread.clock;
  device = device;
  status = status;
  message = message;
}

unfoldable pub emit :
    Setup → Env → Thread → String → String → Option String → Option String → Option String → Thread
emit setup env thread event_type job_id device status message = elim setup.publisher [
  | true ↦ record {
    clock = thread.clock + 1;
    events = thread.events ++ event_at env thread event_type job_id device status message ∷ [];
  }
  | false ↦ thread
]
