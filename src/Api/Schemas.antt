-- ===== src/Api/Schemas.antt =====
-- backend_v2/app/api/schemas.py: what the body of a request may hold. The web framework reads the
-- bodies and checks them against these bounds before a handler is called.
pub mod Bounds
mod Examples
use nw_edit.Prelude.{
  ℕ, String, Bool, true, false, not, ◌&&◌, Option, none, some, List, leb, is_empty, ℤ, pos, negsuc,
}
use nw_edit.Dict.{Dict}
use nw_edit.Text.Strip.{size}
use nw_edit.Domain.Models.{DeviceTarget}
use nw_edit.Presets.{Payload}
use nw_edit.Api.Preparation.{RunJobRequest}

-- `Field(ge=low, le=high)` on a number, and `Field(min_length=low, max_length=high)` on a text.
abbrev pub is_within : ℕ → ℕ → ℕ → Bool
is_within low high n = leb low n && leb n high

abbrev pub is_int_within : ℕ → ℕ → ℤ → Bool
is_int_within low high (pos n) = is_within low high n
is_int_within low high (negsuc n) = false

abbrev pub has_length_within : ℕ → ℕ → String → Bool
has_length_within low high text = is_within low high (size text)

pub record CreateJobRequest : Type 0 where
  pub job_name : String
  pub creator : String
  pub global_vars : Dict String

unfoldable pub accepts_create_job : CreateJobRequest → Bool
accepts_create_job payload =
    has_length_within 1 200 payload.job_name && has_length_within 1 100 payload.creator

-- `DeviceTargetPayload`.
unfoldable pub accepts_target : DeviceTarget → Bool
accepts_target target = has_length_within 1 255 target.host && is_int_within 1 65535 target.port

accepts_canary : Option DeviceTarget → Bool
unfolding accepts_target
accepts_canary none = true
accepts_canary (some target) = accepts_target target

-- `RunJobRequest`; its two floats are in milliseconds.
unfoldable pub accepts_run : RunJobRequest → Bool
unfolding accepts_canary
accepts_run payload =
    accepts_canary payload.canary
    && not (is_empty payload.commands)
    && is_within 1 100 payload.config.concurrency_limit
    && leb payload.config.stagger_delay 60000
    && is_int_within 0 3 payload.config.non_canary_retry_limit
    && leb payload.config.retry_backoff_seconds 60000

-- `PresetCreateRequest` and `PresetUpdateRequest`.
unfoldable pub accepts_preset : Payload → Bool
accepts_preset payload =
    has_length_within 1 200 payload.name
    && has_length_within 1 100 payload.os_model
    && not (is_empty payload.commands)

pub record StatusCommandRequest : Type 0 where
  pub host : String
  pub port : ℤ
  pub commands : String

unfoldable pub accepts_status_command : StatusCommandRequest → Bool
accepts_status_command payload =
    has_length_within 1 255 payload.host
    && is_int_within 1 65535 payload.port
    && leb 1 (size payload.commands)
