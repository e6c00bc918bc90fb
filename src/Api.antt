-- ===== src/Api.antt =====
-- backend_v2/app/api: the handlers over the running application.
pub mod State
pub mod Execution
pub mod Control
pub mod Jobs
pub mod Preparation
pub mod Runs
pub mod Stream
pub mod Devices
pub mod Mappers
pub mod Schemas
pub mod Listing
pub mod Wiring
mod Examples
