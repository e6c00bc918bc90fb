-- ===== src/Api/Wiring/Returns.antt =====
-- A run with the application's worker comes to an end with its summary.
use nw_edit.Stores.DeviceStore
use nw_edit.Stores.DeviceStore.{DeviceStore}
