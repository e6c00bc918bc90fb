-- ===== src/Stores/Examples.antt =====
-- The stores at two jobs and at a device whose host holds colons.
use nw_edit.Prelude.{
  String, pos, refl, ◌≡◌, ◌≤◌, true, false, none, some, [], ◌∷◌, ◌++◌, arith, ◌==◌, if◌then◌else◌,
}
use nw_edit.Dict
use nw_edit.Stores.EventStore
use nw_edit.Stores.EventStore.{EventStore, ExecutionEvent}
use nw_edit.Stores.Laws.{list_events-publish}
use nw_edit.Domain.Models.{DeviceProfile, device_key}
use nw_edit.Stores.DeviceStore
use nw_edit.Stores.Keys.{get_by_key-device_key}

abbrev event_of : String → String → ExecutionEvent
event_of type job_id = record {
  type = type;
  job_id = job_id;
  timestamp = "now";
  device = none;
  status = none;
  message = none;
}

abbrev stored : EventStore
stored = ("j1", event_of "log" "j1" ∷ event_of "log" "j1" ∷ []) ∷ []

seen : 1 ≤ EventStore.event_count stored "j1"
unfolding EventStore.event_count Dict.get
seen = omega arith

list_events-publish_example :
    EventStore.list_events (EventStore.publish stored (event_of "job_complete" "j1")) "j1" 1 ≡ (
      if "j1" == "j1"
      then EventStore.list_events stored "j1" 1 ++ event_of "job_complete" "j1" ∷ []
      else EventStore.list_events stored "j1" 1)
list_events-publish_example = list_events-publish stored (event_of "job_complete" "j1") "j1" 1 seen

abbrev router : DeviceProfile
router = record {
  host = "fe80::1";
  device_type = "cisco_ios";
  username = "admin";
  password = "pw";
  port = pos 22;
  name = none;
  verify_cmds = [];
  host_vars = [];
  prod = false;
  connection_ok = true;
  error_message = none;
}

router_found : DeviceStore.get_by_key (router ∷ []) (device_key "fe80::1" (pos 22)) ≡ some router
unfolding DeviceStore.get_by_key device_key
router_found = refl

get_by_key-device_key_example : (router.host ≡ "fe80::1") × (router.port ≡ pos 22)
get_by_key-device_key_example =
    get_by_key-device_key (router ∷ []) "fe80::1" (pos 22) router router_found
