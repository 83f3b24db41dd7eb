-- ===== src/Linux/System/Info.antt =====
-- info.go: the distribution and the kernel, as the package device reads them.
use go_hass_agent.Prelude.{String, true, false, Option, none, some, List, [], ◌∷◌, ◌++◌}
use go_hass_agent.Sensor.Classes.{StateClass, DeviceClass}
use go_hass_agent.Linux.{LinuxSensor}

unfoldable pub info_sensor : String → String → String → String → LinuxSensor String
info_sensor name id icon v = record {
  display_name = name;
  unique_id = id;
  last_reset = "";
  value = some v;
  icon_string = icon;
  units_string = "";
  data_source = "ProcFS";
  device_class_value = DeviceClass.none;
  state_class_value = StateClass.none;
  is_binary = false;
  is_diagnostic = true;
}

distro_sensors : Option (String × String) → List (LinuxSensor String)
unfolding info_sensor
distro_sensors none = []
distro_sensors (some (distro, version)) =
    info_sensor "Distribution Name" "distribution_name" "mdi:linux" distro
    ∷ info_sensor "Distribution Version" "distribution_version" "mdi:numeric" version
    ∷ []

kernel_sensors : Option String → List (LinuxSensor String)
unfolding info_sensor
kernel_sensors none = []
kernel_sensors (some version) =
    info_sensor "Kernel Version" "kernel_version" "mdi:chip" version ∷ []

-- `Sensors`, for what `GetOSDetails` and `GetKernelVersion` return
unfoldable pub info_sensors : Option (String × String) → Option String → List (LinuxSensor String)
unfolding distro_sensors kernel_sensors
info_sensors details kernel = distro_sensors details ++ kernel_sensors kernel
