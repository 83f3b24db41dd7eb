-- ===== src/Sensor/Classes.antt =====
-- internal/hass/sensor/types: the sensor, state and device classes of Home Assistant, with the
-- names that `stringer` generates for them. The Go types are integers; every value the program
-- makes is one of the constants, and `> 0` holds of each but the first.
use go_hass_agent.Prelude.{String, Bool, true, false, List, [], ◌∷◌}

-- SensorClass.go
pub data SensorClass : Type 0 where
  sensor binary_sensor : SensorClass

unfoldable pub sensor_class_string : SensorClass → String
sensor_class_string sensor = "sensor"
sensor_class_string binary_sensor = "binary_sensor"

-- StateClass.go
pub data StateClass : Type 0 where
  none measurement total total_increasing : StateClass

unfoldable pub state_class_string : StateClass → String
state_class_string StateClass.none = "none"
state_class_string measurement = "measurement"
state_class_string total = "total"
state_class_string total_increasing = "total_increasing"

-- sensor.StateClass() > 0
unfoldable pub state_class_set : StateClass → Bool
state_class_set StateClass.none = false
state_class_set _ = true

-- DeviceClass.go, in the order of the constants
pub data DeviceClass : Type 0 where
  none apparent_power aqi atmospheric_pressure battery carbon_dioxide carbon_monoxide current :
      DeviceClass
  data_rate data_size date distance duration energy_storage enum frequency gas humidity :
      DeviceClass
  illuminance irradiance moisture monetary nitrogen_dioxide nitrogen_monoxide nitrous_oxide :
      DeviceClass
  ozone pm1 pm25 pm10 power_factor power precipitation precipitation_intensity pressure :
      DeviceClass
  reactive_power signal_strength sound_pressure speed sulphur_dioxide temperature timestamp voc :
      DeviceClass
  voltage volume water weight wind_speed : DeviceClass

unfoldable pub device_class_string : DeviceClass → String
device_class_string DeviceClass.none = "none"
device_class_string apparent_power = "apparent_power"
device_class_string aqi = "aqi"
device_class_string atmospheric_pressure = "atmospheric_pressure"
device_class_string battery = "battery"
device_class_string carbon_dioxide = "carbon_dioxide"
device_class_string carbon_monoxide = "carbon_monoxide"
device_class_string current = "current"
device_class_string data_rate = "data_rate"
device_class_string data_size = "data_size"
device_class_string date = "date"
device_class_string distance = "distance"
device_class_string duration = "duration"
device_class_string energy_storage = "energy_storage"
device_class_string enum = "enum"
device_class_string frequency = "frequency"
device_class_string gas = "gas"
device_class_string humidity = "humidity"
device_class_string illuminance = "illuminance"
device_class_string irradiance = "irradiance"
device_class_string moisture = "moisture"
device_class_string monetary = "monetary"
device_class_string nitrogen_dioxide = "nitrogen_dioxide"
device_class_string nitrogen_monoxide = "nitrogen_monoxide"
device_class_string nitrous_oxide = "nitrous_oxide"
device_class_string ozone = "ozone"
device_class_string pm1 = "pm1"
device_class_string pm25 = "pm25"
device_class_string pm10 = "pm10"
device_class_string power_factor = "power_factor"
device_class_string power = "power"
device_class_string precipitation = "precipitation"
device_class_string precipitation_intensity = "precipitation_intensity"
device_class_string pressure = "pressure"
device_class_string reactive_power = "reactive_power"
device_class_string signal_strength = "signal_strength"
device_class_string sound_pressure = "sound_pressure"
device_class_string speed = "speed"
device_class_string sulphur_dioxide = "sulphure_dioxide"
device_class_string temperature = "temperature"
device_class_string timestamp = "timestamp"
device_class_string voc = "voc"
device_class_string voltage = "voltage"
device_class_string volume = "volume"
device_class_string water = "water"
device_class_string weight = "weight"
device_class_string wind_speed = "wind_speed"

-- sensor.DeviceClass() > 0
unfoldable pub device_class_set : DeviceClass → Bool
device_class_set DeviceClass.none = false
device_class_set _ = true

-- The constants from DeviceClassApparentPower to DeviceClassWindSpeed, as a loop counts them.
abbrev pub device_classes : List DeviceClass
device_classes =
    apparent_power ∷ aqi ∷ atmospheric_pressure ∷ battery ∷ carbon_dioxide ∷ carbon_monoxide
    ∷ current ∷ data_rate ∷ data_size ∷ date ∷ distance ∷ duration ∷ energy_storage ∷ enum
    ∷ frequency ∷ gas ∷ humidity ∷ illuminance ∷ irradiance ∷ moisture ∷ monetary ∷ nitrogen_dioxide
    ∷ nitrogen_monoxide ∷ nitrous_oxide ∷ ozone ∷ pm1 ∷ pm25 ∷ pm10 ∷ power_factor ∷ power
    ∷ precipitation ∷ precipitation_intensity ∷ pressure ∷ reactive_power ∷ signal_strength
    ∷ sound_pressure ∷ speed ∷ sulphur_dioxide ∷ temperature ∷ timestamp ∷ voc ∷ voltage ∷ volume
    ∷ water ∷ weight ∷ wind_speed ∷ []
