-- ===== src/Api/State.antt =====
-- The module-level objects of backend_v2/app/api/main.py that keep state.
use nw_edit.Prelude.{[]}
use nw_edit.Result.{Result}
use nw_edit.Stores.JobStore.{JobStore}
use nw_edit.Stores.DeviceStore.{DeviceStore}
use nw_edit.Stores.EventStore.{EventStore}
use nw_edit.Stores.RunStore.{RunStore}
use nw_edit.Stores.ControlStore.{ControlStore}

pub record App : Type 0 where
  pub jobs : JobStore
  pub devices : DeviceStore
  pub events : EventStore
  pub runs : RunStore
  pub controls : ControlStore

abbrev pub new_app : App
new_app = record { jobs = []; devices = []; events = []; runs = []; controls = [] }

-- A handler may raise, and what it has changed before stays changed.
abbrev pub Handler : Type 0 → Type 0
Handler A = App → Result A × App
