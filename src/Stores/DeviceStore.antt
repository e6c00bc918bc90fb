-- ===== src/Stores/DeviceStore.antt =====
-- backend_v2/app/infrastructure/in_memory_device_store.py
use nw_edit.Prelude.{ℕ, String, Option, none, some, List, [], ◌∷◌, length, ◌==◌, if◌then◌else◌}
use nw_edit.Domain.Models.{DeviceProfile, profile_key}

abbrev pub DeviceStore : Type 0
DeviceStore = List DeviceProfile

unfoldable pub replace : DeviceStore → List DeviceProfile → DeviceStore
replace store devices = devices

unfoldable pub list : DeviceStore → List DeviceProfile
list store = store

-- The first device with the key.
unfoldable pub get_by_key : DeviceStore → String → Option DeviceProfile
get_by_key [] key = none
get_by_key (device ∷ store) key =
    if profile_key device == key then some device else get_by_key store key

unfoldable pub clear : DeviceStore → ℕ × DeviceStore
clear store = (length store, [])
