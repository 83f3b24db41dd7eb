-- ===== src/Linux.antt =====
-- internal/linux: the generic sensor, and the sensors of network traffic.
pub mod Rates
pub mod Counts
pub mod Battery
pub mod Disk
pub mod Mem
pub mod Net
pub mod Power
pub mod Apps
pub mod Desktop
pub mod Location
pub mod Updates
pub mod Users
pub mod Problems
pub mod Media
pub mod Cpu
pub mod System
pub mod Pulse
use go_hass_agent.Prelude.{
  String, Bool, Option, none, some, List, [], ◌++◌, ◌∷◌, ◌==◌, if◌then◌else◌,
}
use go_hass_agent.Prelude.Dict.{Dict}
use go_hass_agent.Prelude.Text.{◌+++◌}
use go_hass_agent.Sensor.Classes.{
  SensorClass, sensor, binary_sensor, StateClass, DeviceClass, device_class_set, state_class_set,
  device_class_string,
}

-- `Sensor` of sensor.go: the value is of type V.
pub record LinuxSensor (V : Type 0) : Type 0 where
  pub display_name : String
  pub unique_id : String
  pub last_reset : String
  pub value : Option V
  pub icon_string : String
  pub units_string : String
  pub data_source : String
  pub device_class_value : DeviceClass
  pub state_class_value : StateClass
  pub is_binary : Bool
  pub is_diagnostic : Bool

entry : String → String → Dict String
entry key text = if text == "" then [] else (key, text) ∷ []

module _ {V : Type 0} where
  unfoldable pub sensor_type : LinuxSensor V → SensorClass
  sensor_type s = if s.is_binary then binary_sensor else sensor

  unfoldable pub category : LinuxSensor V → String
  category s = if s.is_diagnostic then "diagnostic" else ""

  unfoldable pub attributes : LinuxSensor V → Dict String
  unfolding entry
  attributes s =
      entry "data_source" s.data_source
      ++ entry "native_unit_of_measurement" s.units_string
      ++ entry "last_reset" s.last_reset

  -- `String`, for the texts that fmt makes of the value and of the attributes. The text for the state
  -- class is that of the device class.
  unfoldable pub sensor_string :
      (Option V → String) → (Dict String → String) → LinuxSensor V → String
  unfolding attributes device_class_set state_class_set device_class_string
  sensor_string value_text attributes_text s =
      let class_text = device_class_string s.device_class_value in
      "Name: "
      +++ s.display_name
      +++ " (ID: "
      +++ s.unique_id
      +++ ")"
      +++ (if device_class_set s.device_class_value then " Device Class: " +++ class_text else "")
      +++ (if state_class_set s.state_class_value then " State Class: " +++ class_text else "")
      +++ " Value: "
      +++ value_text s.value
      +++ (if s.units_string == "" then "" else " " +++ s.units_string)
      +++ " Attributes: "
      +++ attributes_text (attributes s)
