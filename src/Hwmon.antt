-- ===== src/Hwmon.antt =====
-- pkg/linux/hwmon/hwmon.go: the sensors of chips, from the files of /sys/class/hwmon. A file is read
-- to its trimmed text, a parameter; float64 with its parser and division is the type F with the
-- operations of `Floats`. Logging is left out.
pub mod Files
pub mod Chips
pub mod Names
pub mod Gather
pub mod Alarms
use go_hass_agent.Prelude.{ℕ, String, Bool, Option, none, List, [], if◌then◌else◌}
use go_hass_agent.Prelude.Text.{contains}

-- MonitorType, in the order of its constants
pub data MonitorType : Type 0 where
  unknown temp fan voltage pwm current power energy humidity frequency alarm intrusion : MonitorType

-- hwmon_MonitorType_generated.go
unfoldable pub monitor_type_string : MonitorType → String
monitor_type_string unknown = "Unknown"
monitor_type_string temp = "Temp"
monitor_type_string fan = "Fan"
monitor_type_string voltage = "Voltage"
monitor_type_string pwm = "PWM"
monitor_type_string current = "Current"
monitor_type_string power = "Power"
monitor_type_string energy = "Energy"
monitor_type_string humidity = "Humidity"
monitor_type_string frequency = "Frequency"
monitor_type_string alarm = "Alarm"
monitor_type_string intrusion = "Intrusion"

unfoldable pub parse_sensor_type : String → MonitorType
parse_sensor_type id =
    if contains id "intrusion"
    then intrusion
    else if contains id "alarm"
    then alarm
    else if contains id "temp"
    then temp
    else if contains id "fan"
    then fan
    else if contains id "in"
    then voltage
    else if contains id "pwm"
    then pwm
    else if contains id "curr"
    then current
    else if contains id "power"
    then power
    else if contains id "energy"
    then energy
    else if contains id "humidity"
    then humidity
    else if contains id "freq"
    then frequency
    else unknown

-- The scale is 1 or 1000.
unfoldable pub get_scale_factor : MonitorType → ℕ
get_scale_factor temp = 1000
get_scale_factor voltage = 1000
get_scale_factor power = 1000
get_scale_factor energy = 1000
get_scale_factor frequency = 1000
get_scale_factor _ = 1

unfoldable pub get_units : MonitorType → String
get_units temp = "°C"
get_units fan = "rpm"
get_units voltage = "V"
get_units pwm = "Hz"
get_units frequency = "Hz"
get_units current = "A"
get_units power = "W"
get_units energy = "J"
get_units humidity = "%"
get_units _ = ""

-- What the code does with float64: strconv.ParseFloat, `none` for its error, and x / scale.
pub record Floats (F : Type 0) : Type 0 where
  pub parse_float : String → Option F
  pub scaled : F → ℕ → F

pub record Attribute (F : Type 0) : Type 0 where
  pub name : String
  pub value : F

-- The `value any` of a sensor: nil, a bool of an alarm, or a number.
pub data Value (F : Type 0) : Type 0 where
  nil : Value F
  flag : Bool → Value F
  float : F → Value F

-- A Sensor, without the chip that it belongs to.
pub record ChipSensor (F : Type 0) : Type 0 where
  pub value : Value F
  pub label : String
  pub id : String
  pub units : String
  pub attributes : List (Attribute F)
  pub scale_factor : ℕ
  pub monitor_type : MonitorType

-- sensorFile, without the paths
pub record SensorFile : Type 0 where
  pub name : String
  pub sensor_id : String
  pub attribute : String
  pub contents : String
  pub sensor_type : MonitorType

unfoldable pub new_sensor : {F : Type 0} → SensorFile → ChipSensor F
unfolding get_scale_factor get_units
new_sensor file = record {
  value = nil;
  label = "";
  id = file.sensor_id;
  units = get_units file.sensor_type;
  attributes = [];
  scale_factor = get_scale_factor file.sensor_type;
  monitor_type = file.sensor_type;
}
