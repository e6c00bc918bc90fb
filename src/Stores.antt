-- ===== src/Stores.antt =====
-- backend_v2/app/infrastructure/in_memory_*.py: the stores of the running application. Each method
-- holds the store's lock from its first to its last statement, so that it is one atomic function of
-- the store's contents.
pub mod JobStore
pub mod DeviceStore
pub mod EventStore
pub mod RunStore
pub mod ControlStore
pub mod Laws
pub mod Keys
mod Examples
