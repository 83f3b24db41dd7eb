-- ===== src/Linux/Battery.antt =====
-- internal/linux/battery: batteries and their sensors (battery.go and the generated names). D-Bus,
-- float64 and the conversions of names are parameters; logging is left out.
pub mod Monitors
pub mod Signals
pub mod States
use go_hass_agent.Prelude.{
  ℕ, String, Bool, Option, none, some, List, [], ◌∷◌, ◌++◌, ◌==◌, if◌then◌else◌, nat_eq,
}
use go_hass_agent.Prelude.Dict.{Dict, lookup}
use go_hass_agent.Sensor.Classes.{StateClass, measurement, DeviceClass}
use Prim.Native.String

pub data BatterySensor : Type 0 where
  batt_type batt_percentage batt_temp batt_voltage batt_energy batt_energy_rate : BatterySensor
  batt_state batt_native_path batt_level batt_model : BatterySensor

-- battery_generated.go
unfoldable pub battery_sensor_string : BatterySensor → String
battery_sensor_string batt_type = "Battery Type"
battery_sensor_string batt_percentage = "Battery Level"
battery_sensor_string batt_temp = "Battery Temperature"
battery_sensor_string batt_voltage = "Battery Voltage"
battery_sensor_string batt_energy = "Battery Energy"
battery_sensor_string batt_energy_rate = "Battery Power"
battery_sensor_string batt_state = "Battery State"
battery_sensor_string batt_native_path = "Battery Path"
battery_sensor_string batt_level = "Battery Level"
battery_sensor_string batt_model = "Battery Model"

-- dBusSensorToProps: the property behind the prefix org.freedesktop.UPower.Device and a dot
unfoldable pub prop_of : BatterySensor → String
prop_of batt_type = "Type"
prop_of batt_percentage = "Percentage"
prop_of batt_temp = "Temperature"
prop_of batt_voltage = "Voltage"
prop_of batt_energy = "Energy"
prop_of batt_energy_rate = "EnergyRate"
prop_of batt_state = "State"
prop_of batt_native_path = "NativePath"
prop_of batt_level = "BatteryLevel"
prop_of batt_model = "Model"

-- dBusPropToSensor
unfoldable pub dbus_prop_to_sensor : Dict BatterySensor
dbus_prop_to_sensor =
    ("Energy", batt_energy)
    ∷ ("EnergyRate", batt_energy_rate)
    ∷ ("Voltage", batt_voltage)
    ∷ ("Percentage", batt_percentage)
    ∷ ("Temperatute", batt_temp)
    ∷ ("State", batt_state)
    ∷ ("BatteryLevel", batt_level)
    ∷ []

-- The values of a D-Bus variant that the code looks for.
pub data Variant (F : Type 0) : Type 0 where
  float : F → Variant F
  uint : ℕ → Variant F
  text : String → Variant F
  other : Variant F

-- The properties of a device, by its path and the name of the property.
abbrev pub Bus : Type 0 → Type 0
Bus F = String → String → Option (Variant F)

pub record UpowerBattery : Type 0 where
  pub id : String
  pub model : String
  pub dbus_path : String
  pub sensors : List BatterySensor
  pub batt_type : ℕ

-- batteryTypeBattery
abbrev pub battery_type_battery : ℕ
battery_type_battery = 2

-- The sensors of a battery of the type: any other type than a battery has a level in words.
unfoldable pub sensors_for : ℕ → List BatterySensor
sensors_for t =
    batt_state
    ∷ (if nat_eq t battery_type_battery
        then batt_percentage ∷ batt_temp ∷ batt_energy_rate ∷ []
        else batt_level ∷ [])

module _ {F : Type 0} (bus : Bus F) where
  unfoldable pub get_prop : String → BatterySensor → Option (Variant F)
  unfolding prop_of
  get_prop path t = bus path (prop_of t)

  -- The model, and the empty text where it cannot be read.
  model_of : Option (Variant F) → String
  model_of none = ""
  model_of (some (float x)) = ""
  model_of (some (uint n)) = ""
  model_of (some (text s)) = s
  model_of (some other) = ""

  with_path : String → ℕ → Option (Variant F) → Option UpowerBattery
  unfolding model_of sensors_for get_prop
  with_path path t none = none
  with_path path t (some (float x)) = none
  with_path path t (some (uint n)) = none
  with_path path t (some (text s)) = some (record {
    id = s;
    model = model_of (get_prop path batt_model);
    dbus_path = path;
    sensors = sensors_for t;
    batt_type = t;
  })
  with_path path t (some other) = none

  with_type : String → Option (Variant F) → Option UpowerBattery
  unfolding with_path get_prop
  with_type path none = none
  with_type path (some (float x)) = none
  with_type path (some (uint n)) = with_path path n (get_prop path batt_native_path)
  with_type path (some (text s)) = none
  with_type path (some other) = none

  -- `newBattery`: `none` is its error.
  unfoldable pub new_battery : String → Option UpowerBattery
  unfolding with_type get_prop
  new_battery path = with_type path (get_prop path batt_type)

-- upowerBatterySensor, with the value that it was made with
pub record UpowerBatterySensor (F : Type 0) : Type 0 where
  pub battery_id : String
  pub model : String
  pub sensor_type : BatterySensor
  pub value : Variant F

-- `newBatterySensor`
unfoldable pub new_battery_sensor :
    {F : Type 0} → UpowerBattery → BatterySensor → Variant F → UpowerBatterySensor F
new_battery_sensor b t v = record { battery_id = b.id; model = b.model; sensor_type = t; value = v }

module _ {F : Type 0} where
  unfoldable pub sensor_name : UpowerBatterySensor F → String
  unfolding battery_sensor_string
  sensor_name s =
      let owner = if s.model == "" then s.battery_id else s.model in
      String.◌++◌ (String.◌++◌ owner " ") (battery_sensor_string s.sensor_type)

  -- `to_lower_snake` is strings.ToLower of strcase.ToSnake.
  unfoldable pub sensor_id : (String → String) → UpowerBatterySensor F → String
  unfolding battery_sensor_string
  sensor_id to_lower_snake s =
      String.◌++◌ (String.◌++◌ s.battery_id "_")
        (to_lower_snake (battery_sensor_string s.sensor_type))

  -- `getSensors`: what cannot be read is left out.
  read_sensor : UpowerBattery → BatterySensor → Option (Variant F) → List (UpowerBatterySensor F)
  unfolding new_battery_sensor
  read_sensor b t none = []
  read_sensor b t (some v) = new_battery_sensor b t v ∷ []

  unfoldable pub get_sensors :
      Bus F → UpowerBattery → List BatterySensor → List (UpowerBatterySensor F)
  unfolding read_sensor get_prop
  get_sensors bus b [] = []
  get_sensors bus b (t ∷ ts) = read_sensor b t (get_prop bus b.dbus_path t) ++ get_sensors bus b ts

  unfoldable pub changed_sensor :
      UpowerBattery → Variant F → Option BatterySensor → List (UpowerBatterySensor F)
  unfolding new_battery_sensor
  changed_sensor b v none = []
  changed_sensor b v (some t) = new_battery_sensor b t v ∷ []

  -- One event of `monitorBattery`: the properties that changed, in the order of the range.
  unfoldable pub changed_sensors : UpowerBattery → Dict (Variant F) → List (UpowerBatterySensor F)
  unfolding changed_sensor dbus_prop_to_sensor
  changed_sensors b [] = []
  changed_sensors b ((prop, v) ∷ rest) =
      changed_sensor b v (lookup prop dbus_prop_to_sensor) ++ changed_sensors b rest

unfoldable pub device_class : BatterySensor → DeviceClass
device_class batt_percentage = DeviceClass.battery
device_class batt_temp = DeviceClass.temperature
device_class batt_energy_rate = DeviceClass.power
device_class _ = DeviceClass.none

unfoldable pub state_class : BatterySensor → StateClass
state_class batt_percentage = measurement
state_class batt_temp = measurement
state_class batt_energy_rate = measurement
state_class _ = StateClass.none

unfoldable pub units : BatterySensor → String
units batt_percentage = "%"
units batt_temp = "°C"
units batt_energy_rate = "W"
units _ = ""
