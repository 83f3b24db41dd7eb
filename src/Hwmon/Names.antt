-- ===== src/Hwmon/Names.antt =====
-- The names, ids and texts of sensors, and internal/linux/system/hwmon.go, which reports them. The
-- capitaliser of golang.org/x/text and the snake case of strcase are parameters, and so are the
-- prints of values and floats.
use go_hass_agent.Prelude.{
  String, Bool, true, false, Option, none, some, List, [], ◌∷◌, ◌++◌, ◌==◌, map, if◌then◌else◌,
}
use go_hass_agent.Prelude.Dict.{Dict, insert}
use go_hass_agent.Prelude.Text.{◌+++◌, contains}
use go_hass_agent.Sensor.Classes.{
  SensorClass, sensor, binary_sensor, StateClass, measurement, DeviceClass,
}
use go_hass_agent.Hwmon.{
  MonitorType, unknown, temp, fan, voltage, pwm, current, power, energy, humidity, frequency, alarm,
  intrusion, monitor_type_string, Attribute, Value, flag, ChipSensor, Floats,
}
use go_hass_agent.Hwmon.Chips.{Chip, chip_string, ChipDir, get_all_chips}

unfoldable pub is_alarm : MonitorType → Bool
is_alarm alarm = true
is_alarm intrusion = true
is_alarm _ = false

module _ {F : Type 0} (chip : Chip F) (s : ChipSensor F) where
  -- The words before the sensor's own: `capitalise` is the title case, and `spaced` replaces
  -- underscores by spaces.
  chip_part : (String → String) → (String → String) → String
  chip_part capitalise spaced =
      if chip.device_model == ""
      then "Hardware Sensor"
        +++ (if chip.chip_name == "" then "" else " " +++ capitalise (spaced chip.chip_name))
      else chip.device_model

  own_part : (String → String) → String
  unfolding is_alarm
  own_part capitalise =
      if is_alarm s.monitor_type
      then (if contains s.id "_" then "" else capitalise s.id +++ " ") +++ capitalise s.label
      else if s.label == ""
      then capitalise s.id
      else capitalise s.label

  -- `Name`
  unfoldable pub sensor_name : (String → String) → (String → String) → String
  unfolding chip_part own_part
  sensor_name capitalise spaced = chip_part capitalise spaced +++ " " +++ own_part capitalise

  -- `ID`
  unfoldable pub sensor_id : (String → String) → String
  sensor_id to_snake = to_snake (chip.chip_id +++ "_" +++ chip.chip_name +++ "_" +++ s.id)

unfoldable pub attribute_string : {F : Type 0} → (F → String) → Attribute F → String
attribute_string three_digits a = a.name +++ ": " +++ three_digits a.value

attributes_from : {F : Type 0} → (F → String) → List (Attribute F) → String
unfolding attribute_string
attributes_from three_digits [] = ""
attributes_from three_digits (a ∷ []) = attribute_string three_digits a +++ ")"
attributes_from three_digits (a ∷ b ∷ rest) =
    attribute_string three_digits a +++ ", " +++ attributes_from three_digits (b ∷ rest)

attributes_text : {F : Type 0} → (F → String) → List (Attribute F) → String
unfolding attributes_from
attributes_text three_digits [] = ""
attributes_text three_digits (a ∷ rest) = " (" +++ attributes_from three_digits (a ∷ rest)

-- `String` of a sensor: `print` is %v of the value.
unfoldable pub sensor_string :
    {F : Type 0}
    → (Value F → String)
    → (F → String)
    → (String → String)
    → (String → String)
    → (String → String)
    → Chip F
    → ChipSensor F
    → String
unfolding attributes_text sensor_name sensor_id chip_string monitor_type_string
sensor_string print three_digits capitalise spaced to_snake chip s =
    sensor_name chip s capitalise spaced
    +++ ": "
    +++ print s.value
    +++ " "
    +++ s.units
    +++ " ["
    +++ monitor_type_string s.monitor_type
    +++ "] (id: "
    +++ sensor_id chip s to_snake
    +++ ", path: "
    +++ chip.path
    +++ ", chip: "
    +++ chip_string chip
    +++ ")"
    +++ attributes_text three_digits s.attributes

-- `hwSensor`: a sensor of a chip with what Home Assistant is told of it.
pub record HwSensor (F : Type 0) : Type 0 where
  pub chip : Chip F
  pub details : ChipSensor F
  pub icon : String
  pub sensor_type : SensorClass
  pub device_class : DeviceClass
  pub state_class : StateClass

-- `parseSensorType` of system/hwmon.go, by the text of the monitor type
unfoldable pub icon_and_class : MonitorType → String × DeviceClass
icon_and_class temp = ("mdi:thermometer", DeviceClass.temperature)
icon_and_class fan = ("mdi:turbine", DeviceClass.none)
icon_and_class power = ("mdi:flash", DeviceClass.power)
icon_and_class voltage = ("mdi:lightning-bolt", DeviceClass.voltage)
icon_and_class energy = ("mdi:lightning-bolt", DeviceClass.energy_storage)
icon_and_class current = ("mdi:current-ac", DeviceClass.current)
icon_and_class frequency = ("mdi:sawtooth-wave", DeviceClass.frequency)
icon_and_class pwm = ("mdi:sawtooth-wave", DeviceClass.frequency)
icon_and_class humidity = ("mdi:water-percent", DeviceClass.humidity)
icon_and_class unknown = ("mdi:chip", DeviceClass.none)
icon_and_class alarm = ("mdi:chip", DeviceClass.none)
icon_and_class intrusion = ("mdi:chip", DeviceClass.none)

unfoldable pub alarm_icon : {F : Type 0} → Value F → String
alarm_icon (flag true) = "mdi:alarm-light"
alarm_icon _ = "mdi:alarm-light-off"

unfoldable pub new_hw_sensor : {F : Type 0} → Chip F → ChipSensor F → HwSensor F
unfolding icon_and_class alarm_icon is_alarm
new_hw_sensor chip s =
    if is_alarm s.monitor_type
    then record {
      chip = chip;
      details = s;
      icon = alarm_icon s.value;
      sensor_type = binary_sensor;
      device_class = DeviceClass.none;
      state_class = StateClass.none;
    }
    else record {
      chip = chip;
      details = s;
      icon = (icon_and_class s.monitor_type).0;
      sensor_type = sensor;
      device_class = (icon_and_class s.monitor_type).1;
      state_class = measurement;
    }

-- The values of the attributes.
pub data AttributeValue (F : Type 0) : Type 0 where
  text : String → AttributeValue F
  number : F → AttributeValue F

with_attributes :
    {F : Type 0} → List (Attribute F) → Dict (AttributeValue F) → Dict (AttributeValue F)
with_attributes [] entries = entries
with_attributes (a ∷ rest) entries = with_attributes rest (insert a.name (number a.value) entries)

-- `Attributes` of hwSensor
unfoldable pub hw_attributes : {F : Type 0} → HwSensor F → Dict (AttributeValue F)
unfolding with_attributes monitor_type_string
hw_attributes s =
    let own : Dict (AttributeValue _) =
      ("sensor_type", text (monitor_type_string s.details.monitor_type))
      ∷ ("sysfs_path", text s.chip.path)
      ∷ ("data_source", text "SysFS")
      ∷ [] in
    with_attributes s.details.attributes (
      if s.details.units == ""
      then own
      else insert "native_unit_of_measurement" (text s.details.units) own)

hw_sensors : {F : Type 0} → List (Chip F) → List (HwSensor F)
unfolding new_hw_sensor
hw_sensors [] = []
hw_sensors (chip ∷ chips) = map (new_hw_sensor chip) chip.sensors ++ hw_sensors chips

-- `Sensors` of the worker; `none` is its error.
unfoldable pub hw_mon_sensors :
    {F : Type 0} → Floats F → Option (List ChipDir) → Option (List (HwSensor F))
unfolding hw_sensors get_all_chips
hw_mon_sensors floats dirs = elim (get_all_chips floats dirs) [
  | none ↦ none
  | some chips ↦ some (hw_sensors chips)
]
