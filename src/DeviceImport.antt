-- ===== src/DeviceImport.antt =====
-- backend_v2/app/application/device_import_service.py. `csv.reader`, `json.loads`, the connection
-- validator and the order in which the validations finish are arguments.
pub mod Reader
pub mod Row
pub mod Validation
pub mod Service
mod Examples
