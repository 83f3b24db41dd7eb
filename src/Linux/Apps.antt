-- ===== src/Linux/Apps.antt =====
-- internal/linux/apps: the sensors of the active and the running applications, from the states that
-- the desktop portal gives. V is dbus.Variant, and a range over the map takes the order of the list.
use mathlib.Core.List.{append-nil}
use go_hass_agent.Prelude.{
  ℕ, String, Bool, true, false, not, ◌&&◌, Option, none, some, List, [], ◌∷◌, ◌++◌, ◌==◌, ltb,
  nat_eq, length, if◌then◌else◌, ◌≡◌, refl, arith, ap,
}
use go_hass_agent.Prelude.Dict.{Dict}
use go_hass_agent.Sensor.Classes.{StateClass, DeviceClass, measurement}
use go_hass_agent.Linux.{LinuxSensor}

-- `newActiveAppSensor` and `newRunningAppsSensor`
unfoldable pub new_active_app_sensor : LinuxSensor String
new_active_app_sensor = record {
  display_name = "Active App";
  unique_id = "active_app";
  last_reset = "";
  value = none;
  icon_string = "mdi:application";
  units_string = "";
  data_source = "D-Bus";
  device_class_value = DeviceClass.none;
  state_class_value = StateClass.none;
  is_binary = false;
  is_diagnostic = false;
}

pub record RunningAppsSensor : Type 0 where
  pub apps : List String
  pub sensor : LinuxSensor ℕ

unfoldable pub new_running_apps_sensor : RunningAppsSensor
new_running_apps_sensor = record {
  apps = [];
  sensor = record {
    display_name = "Running Apps";
    unique_id = "running_apps";
    last_reset = "";
    value = none;
    icon_string = "mdi:apps";
    units_string = "apps";
    data_source = "";
    device_class_value = DeviceClass.none;
    state_class_value = measurement;
    is_binary = false;
    is_diagnostic = false;
  };
}

-- The worker's two sensors.
pub record AppsWorker : Type 0 where
  pub active_app : LinuxSensor String
  pub running_apps : RunningAppsSensor

unfoldable pub new_apps_worker : AppsWorker
unfolding new_active_app_sensor new_running_apps_sensor
new_apps_worker = record {
  active_app = new_active_app_sensor;
  running_apps = new_running_apps_sensor;
}

-- The list that `Sensors` returns points to the sensors of the worker.
pub data AppSensor : Type 0 where
  active running : AppSensor

-- w.activeApp.State() != name
is_other : String → Option String → Bool
is_other name none = true
is_other name (some shown) = not (shown == name)

-- w.runningApps.State() != len(runningApps)
differs : ℕ → Option ℕ → Bool
differs n none = true
differs n (some shown) = not (nat_eq shown n)

unfoldable pub note_active : String → ℕ → LinuxSensor String → List AppSensor × LinuxSensor String
unfolding is_other
note_active name state s =
    if nat_eq state 2 && is_other name s.value
    then (active ∷ [], record s { value = some name })
    else ([], s)

module _ {V : Type 0} (to_uint32 : V → Option ℕ) where
  -- The names with a state above 0, which the loop gathers.
  unfoldable pub running_of : Dict V → List String
  running_of [] = []
  running_of ((name, v) ∷ rest) = elim (to_uint32 v) [
    | none ↦ running_of rest
    | some state ↦ (if ltb 0 state then name ∷ [] else []) ++ running_of rest
  ]

  -- What the loop does with the sensor of the active application.
  unfoldable pub active_of : Dict V → LinuxSensor String → List AppSensor × LinuxSensor String
  unfolding note_active
  active_of [] s = ([], s)
  active_of ((name, v) ∷ rest) s = elim (to_uint32 v) [
    | none ↦ active_of rest s
    | some state ↦
        let (sent, s') = note_active name state s in
        let (more, s'') = active_of rest s' in (sent ++ more, s'')
  ]

  unfoldable pub update_running :
      List String → RunningAppsSensor → List AppSensor × RunningAppsSensor
  unfolding differs
  update_running apps r =
      if differs (length apps) r.sensor.value
      then (
        running ∷ [],
        record { apps = apps; sensor = record r.sensor { value = some (length apps) } },
      )
      else ([], r)

  -- `Sensors`, for what the portal gives; without an answer there is an error.
  unfoldable pub app_sensors : Option (Dict V) → AppsWorker → Option (List AppSensor) × AppsWorker
  unfolding running_of active_of update_running
  app_sensors none w = (none, w)
  app_sensors (some states) w =
      let (sent, a) = active_of states w.active_app in
      let (more, r) = update_running (running_of states) w.running_apps in
      (some (sent ++ more), record { active_app = a; running_apps = r })

  differs_same : (n : ℕ) → differs n (some n) ≡ false
  unfolding differs
  differs_same n = ground arith

  -- Applications that are exchanged for others go unnoticed: after a report, as long as the same
  -- number of them runs, the sensor of the running applications is neither sent nor changed, and
  -- goes on listing those that it listed.
  pub running_apps_stale :
      (states : Dict V) (w : AppsWorker)
      → w.running_apps.sensor.value ≡ some (length (running_of states))
      → (app_sensors (some states) w).1.running_apps ≡ w.running_apps
        × ((app_sensors (some states) w).0 ≡ some (active_of states w.active_app).0)
  unfolding app_sensors update_running
  running_apps_stale states w h =
      rw (h, differs_same (length (running_of states))) (refl, ap some (append-nil _))
