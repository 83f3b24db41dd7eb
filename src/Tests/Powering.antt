-- ===== src/Tests/Powering.antt =====
-- The theorems of the batteries at concrete values.
use go_hass_agent.Prelude.{ℕ, ◌≡◌, refl, none, inl, [], ◌∷◌}
use go_hass_agent.Linux.Battery.{
  batt_state, UpowerBattery, Variant, uint, changed_sensors, new_battery_sensor, prop_of,
  sensors_for,
}
use go_hass_agent.Linux.Battery.Signals.{changed_sensors-sensors_for}
use go_hass_agent.Linux.Battery.Monitors.{BatterySensorWorker}

-- The mouse is added and removed, and the pack is added while it is.
abbrev plugged : BatterySensorWorker
plugged = record {
  battery_list = ("/pack", 1) ∷ [];
  running = (1, "/pack") ∷ [];
  next_context = 2;
  pending = [];
  removing = none;
}

abbrev pack : UpowerBattery
pack = record {
  id = "BAT0";
  model = "";
  dbus_path = "/pack";
  sensors = batt_state ∷ [];
  batt_type = 2;
}

abbrev charging : Variant ℕ
charging = uint 1

changed_sensors-sensors_for_example :
    changed_sensors pack (("State", charging) ∷ [])
    ≡ new_battery_sensor pack batt_state charging ∷ []
unfolding sensors_for prop_of
changed_sensors-sensors_for_example =
    changed_sensors-sensors_for pack 2 batt_state charging (inl refl)
