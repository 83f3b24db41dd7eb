-- ===== src/Linux/Battery/States.antt =====
-- What the battery sensors report (battery.go): states, icons and attributes, with the generated
-- names of the levels, states and types. The text of a number and float64 are parameters.
use go_hass_agent.Prelude.{ℕ, String, Bool, Option, some, nat_eq, if◌then◌else◌}
use go_hass_agent.Prelude.Text.{◌+++◌}
use go_hass_agent.Linux.Battery.{
  BatterySensor, batt_type, batt_percentage, batt_temp, batt_voltage, batt_energy, batt_energy_rate,
  batt_state, batt_native_path, batt_level, batt_model, Variant, float, uint, text, Bus, get_prop,
  UpowerBattery, UpowerBatterySensor,
}

-- batteryLevelsStrings.go, batteryStatesStrings.go and batteryTypeStrings.go
unfoldable pub battery_level_string : (ℕ → String) → ℕ → String
battery_level_string format n =
    if nat_eq n 0
    then "Unknown"
    else if nat_eq n 1
    then "None"
    else if nat_eq n 3
    then "Low"
    else if nat_eq n 4
    then "Critical"
    else if nat_eq n 6
    then "Normal"
    else if nat_eq n 7
    then "High"
    else if nat_eq n 8
    then "Full"
    else "batteryLevel(" +++ format n +++ ")"

unfoldable pub charge_state_string : (ℕ → String) → ℕ → String
charge_state_string format n =
    if nat_eq n 0
    then "Unknown"
    else if nat_eq n 1
    then "Charging"
    else if nat_eq n 2
    then "Discharging"
    else if nat_eq n 3
    then "Empty"
    else if nat_eq n 4
    then "Fully Charged"
    else if nat_eq n 5
    then "Pending Charge"
    else if nat_eq n 6
    then "Pending Discharge"
    else "battChargeState(" +++ format n +++ ")"

unfoldable pub battery_type_string : (ℕ → String) → ℕ → String
battery_type_string format n =
    if nat_eq n 1
    then "Line Power"
    else if nat_eq n 2
    then "Battery"
    else if nat_eq n 3
    then "UPS"
    else if nat_eq n 4
    then "Monitor"
    else if nat_eq n 5
    then "Mouse"
    else if nat_eq n 6
    then "Keyboard"
    else if nat_eq n 7
    then "Pda"
    else if nat_eq n 8
    then "Phone"
    else "batteryType(" +++ format n +++ ")"

-- What `State` returns.
pub data Reported (F : Type 0) : Type 0 where
  unknown : Reported F
  number : F → Reported F
  words : String → Reported F

module _ {F : Type 0} (format : ℕ → String) where
  as_number : Variant F → Reported F
  as_number (float x) = number x
  as_number _ = unknown

  as_charge : Variant F → Reported F
  unfolding charge_state_string
  as_charge (uint n) = words (charge_state_string format n)
  as_charge _ = unknown

  as_level : Variant F → Reported F
  unfolding battery_level_string
  as_level (uint n) = words (battery_level_string format n)
  as_level _ = unknown

  as_words : Variant F → Reported F
  as_words (text s) = words s
  as_words _ = unknown

  state_by : BatterySensor → Variant F → Reported F
  unfolding as_number as_charge as_level as_words
  state_by batt_voltage v = as_number v
  state_by batt_temp v = as_number v
  state_by batt_energy v = as_number v
  state_by batt_energy_rate v = as_number v
  state_by batt_percentage v = as_number v
  state_by batt_state v = as_charge v
  state_by batt_level v = as_level v
  state_by batt_type v = as_words v
  state_by batt_native_path v = as_words v
  state_by batt_model v = as_words v

  -- `State`: the value of a sensor is what its variant holds, and never nil.
  unfoldable pub battery_state : UpowerBatterySensor F → Reported F
  unfolding state_by
  battery_state s = state_by s.sensor_type s.value

-- What the icons ask of a float64: 95 or more, the nearest ten as an integer's text, and the sign.
pub record Charges (F : Type 0) : Type 0 where
  pub is_full : F → Bool
  pub nearest_ten : F → String
  pub is_negative : F → Bool

module _ {F : Type 0} (charges : Charges F) where
  -- `batteryPercentIcon` and `batteryChargeIcon`
  unfoldable pub battery_percent_icon : Variant F → String
  battery_percent_icon (float x) =
      if charges.is_full x then "mdi:battery" else "mdi:battery-" +++ charges.nearest_ten x
  battery_percent_icon _ = "mdi:battery-unknown"

  unfoldable pub battery_charge_icon : Variant F → String
  battery_charge_icon (float x) =
      if charges.is_negative x then "mdi:battery-minus" else "mdi:battery-plus"
  battery_charge_icon _ = "mdi:battery"

  icon_by : BatterySensor → Variant F → String
  unfolding battery_percent_icon battery_charge_icon
  icon_by batt_percentage v = battery_percent_icon v
  icon_by batt_energy_rate v = battery_charge_icon v
  icon_by _ v = "mdi:battery"

  -- `Icon`
  unfoldable pub battery_icon : UpowerBatterySensor F → String
  unfolding icon_by
  battery_icon s = icon_by s.sensor_type s.value

-- The extra attributes of a sensor; most have none.
pub data ExtraAttributes (F : Type 0) : Type 0 where
  no_attributes : ExtraAttributes F
  rate_attributes : (voltage energy : F) → ExtraAttributes F
  type_attributes : String → ExtraAttributes F

module _ {F : Type 0} (zero_value : F) (format : ℕ → String) (bus : Bus F) where
  -- A property that cannot be read, or is no float64, counts as 0.
  number_of : Option (Variant F) → F
  number_of (some (float x)) = x
  number_of _ = zero_value

  -- `generateAttributes`
  unfoldable pub generate_attributes : UpowerBattery → BatterySensor → ExtraAttributes F
  unfolding number_of battery_type_string get_prop
  generate_attributes b batt_energy_rate =
      rate_attributes (number_of (get_prop bus b.dbus_path batt_voltage))
        (number_of (get_prop bus b.dbus_path batt_energy))
  generate_attributes b batt_percentage = type_attributes (battery_type_string format b.batt_type)
  generate_attributes b batt_level = type_attributes (battery_type_string format b.batt_type)
  generate_attributes b _ = no_attributes
