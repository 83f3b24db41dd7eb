-- ===== src/Linux/Cpu/Load.antt =====
-- loadAvgs.go: the three averages at the start of /proc/loadavg.
use go_hass_agent.Prelude.{String, false, Option, none, some, List, [], ◌∷◌}
use go_hass_agent.Prelude.Text.{split_on}
use go_hass_agent.Sensor.Classes.{StateClass, DeviceClass}
use go_hass_agent.Linux.{LinuxSensor}

load_sensor : (String → String) → String → LinuxSensor String
load_sensor to_snake name = record {
  display_name = name;
  unique_id = to_snake name;
  last_reset = "";
  value = none;
  icon_string = "mdi:chip";
  units_string = "load";
  data_source = "ProcFS";
  device_class_value = DeviceClass.none;
  state_class_value = StateClass.none;
  is_binary = false;
  is_diagnostic = false;
}

-- `newLoadAvgSensors`
unfoldable pub new_load_avg_sensors : (String → String) → List (LinuxSensor String)
unfolding load_sensor
new_load_avg_sensors to_snake =
    load_sensor to_snake "CPU load average (1 min)"
    ∷ load_sensor to_snake "CPU load average (5 min)"
    ∷ load_sensor to_snake "CPU load average (15 min)"
    ∷ []

-- `parseLoadAvgs`: the first three of exactly five parts
unfoldable pub parse_load_avgs : List String → Option (List String)
parse_load_avgs (a ∷ b ∷ c ∷ d ∷ e ∷ []) = some (a ∷ b ∷ c ∷ [])
parse_load_avgs _ = none

-- The loop that gives each sensor its average.
set_values : List String → List (LinuxSensor String) → List (LinuxSensor String)
set_values [] sensors = sensors
set_values (v ∷ vs) [] = []
set_values (v ∷ vs) (s ∷ sensors) = (record s { value = some v }) ∷ set_values vs sensors

-- `Sensors`, for the text of the file; `none` is its error, which leaves the sensors as they were.
unfoldable pub load_avgs :
    Option String → List (LinuxSensor String) → Option (List (LinuxSensor String))
unfolding set_values parse_load_avgs
load_avgs none sensors = none
load_avgs (some text) sensors = elim (parse_load_avgs (split_on b' ' text)) [
  | none ↦ none
  | some avgs ↦ some (set_values avgs sensors)
]
