-- ===== src/Linux/Net/Wifi.antt =====
-- wifiSensor.go: the sensors of an access point. The value is what D-Bus gave.
use go_hass_agent.Prelude.{
  ℕ, String, ◌||◌, Option, none, some, List, [], ◌∷◌, ◌==◌, leb, if◌then◌else◌,
}
use go_hass_agent.Prelude.Text.{elem}
use go_hass_agent.Sensor.Classes.{StateClass, DeviceClass, measurement, data_rate, frequency}

pub data WifiValue : Type 0 where
  -- []uint8, as the text of its bytes
  octets : String → WifiValue
  text : String → WifiValue
  uint32 : ℕ → WifiValue
  uint8 : ℕ → WifiValue
  others : WifiValue

-- apPropList
unfoldable pub ap_prop_list : List String
ap_prop_list = "Ssid" ∷ "HwAddress" ∷ "MaxBitrate" ∷ "Frequency" ∷ "Strength" ∷ "Bandwidth" ∷ []

pub record WifiSensor : Type 0 where
  pub prop : String
  pub value : WifiValue
  pub display_name : String
  pub unique_id : String
  pub units_string : String
  pub device_class_value : DeviceClass
  pub state_class_value : StateClass

abbrev described :
    String → String → String → DeviceClass → StateClass → String → WifiValue → WifiSensor
described name id unit device state prop value = record {
  prop = prop;
  value = value;
  display_name = name;
  unique_id = id;
  units_string = unit;
  device_class_value = device;
  state_class_value = state;
}

-- `newWifiSensor`
unfoldable pub new_wifi_sensor : String → WifiValue → WifiSensor
new_wifi_sensor prop value =
    if prop == "Ssid"
    then described "Wi-Fi SSID" "wi_fi_ssid" "" DeviceClass.none StateClass.none prop value
    else if prop == "HwAddress"
    then described "Wi-Fi BSSID" "wi_fi_bssid" "" DeviceClass.none StateClass.none prop value
    else if prop == "MaxBitrate"
    then described "Wi-Fi Link Speed" "wi_fi_link_speed" "kB/s" data_rate measurement prop value
    else if prop == "Frequency"
    then described "Wi-Fi Frequency" "wi_fi_frequency" "MHz" frequency measurement prop value
    else if prop == "Bandwidth"
    then described "Wi-Fi Bandwidth" "wi_fi_bandwidth" "MHz" frequency measurement prop value
    else if prop == "Strength"
    then described "Wi-Fi Signal Strength" "wi_fi_signal_strength" "%" DeviceClass.none measurement
        prop value
    else described "" "" "" DeviceClass.none StateClass.none prop value

-- The types that the values must have: `State` gives the value itself, or Unknown, here `none`.
as_octets : WifiValue → Option WifiValue
as_octets (octets s) = some (octets s)
as_octets _ = none

as_text : WifiValue → Option WifiValue
as_text (text s) = some (text s)
as_text _ = none

as_uint32 : WifiValue → Option WifiValue
as_uint32 (uint32 n) = some (uint32 n)
as_uint32 _ = none

as_uint8 : WifiValue → Option WifiValue
as_uint8 (uint8 n) = some (uint8 n)
as_uint8 _ = none

unfoldable pub wifi_state : WifiSensor → Option WifiValue
unfolding as_octets as_text as_uint32 as_uint8
wifi_state w =
    if w.prop == "Ssid"
    then as_octets w.value
    else if w.prop == "HwAddress"
    then as_text w.value
    else if w.prop == "Frequency" || w.prop == "MaxBitrate" || w.prop == "Bandwidth"
    then as_uint32 w.value
    else if w.prop == "Strength"
    then as_uint8 w.value
    else none

unfoldable pub strength_icon : WifiValue → String
strength_icon (uint8 n) =
    if leb n 25
    then "mdi:wifi-strength-1"
    else if leb n 50
    then "mdi:wifi-strength-2"
    else if leb n 75
    then "mdi:wifi-strength-3"
    else "mdi:wifi-strength-4"
strength_icon _ = "mdi:wifi-strength-alert-outline"

unfoldable pub wifi_icon : WifiSensor → String
unfolding strength_icon
wifi_icon w =
    if elem w.prop ("Ssid" ∷ "HwAddress" ∷ "Frequency" ∷ "MaxBitrate" ∷ "Bandwidth" ∷ [])
    then "mdi:wifi"
    else if w.prop == "Strength"
    then strength_icon w.value
    else "mdi:network"

found_sensor : String → Option WifiValue → List WifiSensor → List WifiSensor
unfolding new_wifi_sensor
found_sensor prop none rest = rest
found_sensor prop (some v) rest = new_wifi_sensor prop v ∷ rest

sensors_for : (String → Option WifiValue) → List String → List WifiSensor
unfolding found_sensor
sensors_for bus [] = []
sensors_for bus (prop ∷ props) = found_sensor prop (bus prop) (sensors_for bus props)

-- `getWifiSensors`, for what the bus gives for the properties of the access point
unfoldable pub get_wifi_sensors : (String → Option WifiValue) → List WifiSensor
unfolding sensors_for ap_prop_list
get_wifi_sensors bus = sensors_for bus ap_prop_list
