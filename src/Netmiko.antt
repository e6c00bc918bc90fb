-- ===== src/Netmiko.antt =====
-- backend_v2/app/infrastructure/netmiko_executor.py and the adapters over it. The library netmiko is
-- not in the repository: what a connection answers is an argument.
pub mod Session
pub mod Output
pub mod Execute
pub mod Status
pub mod Adapters
mod Examples
