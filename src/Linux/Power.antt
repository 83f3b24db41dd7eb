-- ===== src/Linux/Power.antt =====
-- internal/linux/power: the sensors and controls of power, laptops and the screen lock. The watch
-- that each worker starts is Dbusx.Watch; the loops here take what it delivers. Logging is left out.
pub mod Laptop
pub mod Session
pub mod Profile
pub mod Control
pub mod Screen
pub mod Unseen
pub mod Tracked
use go_hass_agent.Prelude.{String, Bool, Option, none, some, List, [], ◌∷◌, ◌++◌}
use go_hass_agent.Sensor.Classes.{StateClass, DeviceClass}
use go_hass_agent.Linux.{LinuxSensor}

-- A linux.Sensor with the fields that these sensors set.
unfoldable pub power_sensor :
    {W : Type 0} → String → String → W → String → Bool → Bool → LinuxSensor W
power_sensor name id v icon binary diagnostic = record {
  display_name = name;
  unique_id = id;
  last_reset = "";
  value = some v;
  icon_string = icon;
  units_string = "";
  data_source = "D-Bus";
  device_class_value = DeviceClass.none;
  state_class_value = StateClass.none;
  is_binary = binary;
  is_diagnostic = diagnostic;
}
