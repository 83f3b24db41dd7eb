-- ===== src/Linux/Power/Laptop.antt =====
-- laptop.go
use go_hass_agent.Prelude.{
  String, Bool, true, Option, none, some, List, [], ◌∷◌, ◌++◌, ◌==◌, if◌then◌else◌,
}
use go_hass_agent.Prelude.Dict.{Dict}
use go_hass_agent.Prelude.Text.{elem}
use go_hass_agent.Linux.{LinuxSensor}
use go_hass_agent.Linux.Power.{power_sensor}
use go_hass_agent.Dbusx.Values.{Any, Result, ok, err, Properties, parse_properties_changed}

abbrev pub docked_prop : String
docked_prop = "org.freedesktop.login1.Manager.Docked"

abbrev pub lid_closed_prop : String
lid_closed_prop = "org.freedesktop.login1.Manager.LidClosed"

abbrev pub external_power_prop : String
external_power_prop = "org.freedesktop.login1.Manager.OnExternalPower"

abbrev pub laptop_prop_list : List String
laptop_prop_list = docked_prop ∷ lid_closed_prop ∷ external_power_prop ∷ []

pub record LaptopSensor : Type 0 where
  pub prop : String
  pub sensor : LinuxSensor Bool

laptop_name : String → String
laptop_name prop =
    if prop == docked_prop
    then "Docked State"
    else if prop == lid_closed_prop
    then "Lid Closed"
    else if prop == external_power_prop
    then "External Power Connected"
    else ""

-- `newLaptopEvent`, which sets no unique id
unfoldable pub new_laptop_event : String → Bool → LaptopSensor
unfolding laptop_name power_sensor
new_laptop_event prop state = record {
  prop = prop;
  sensor = power_sensor (laptop_name prop) "" state "" true true;
}

icon_of : String → Bool → String
icon_of prop state =
    if prop == docked_prop
    then (if state then "mdi:desktop-tower-monitor" else "mdi:laptop")
    else if prop == lid_closed_prop
    then (if state then "mdi:laptop" else "mdi:laptop-off")
    else if prop == external_power_prop
    then (if state then "mdi:power-plug" else "mdi:battery")
    else "mdi:help"

-- `Icon`
unfoldable pub laptop_icon : LaptopSensor → String
unfolding icon_of
laptop_icon s = elim (s.sensor.value) [ none ↦ "mdi:alert" | some state ↦ icon_of s.prop state ]

module _ {V : Type 0} (to_bool : V → Option Bool) where
  event_for : String → Option Bool → List LaptopSensor
  unfolding new_laptop_event
  event_for prop none = []
  event_for prop (some state) = new_laptop_event prop state ∷ []

  -- `sendChangedProps`, in the order of the range
  unfoldable pub send_changed_props : Dict V → List LaptopSensor
  unfolding event_for
  send_changed_props [] = []
  send_changed_props ((prop, v) ∷ rest) =
      (if elem prop laptop_prop_list then event_for prop (to_bool v) else [])
      ++ send_changed_props rest

  sent_for : Result (Properties V) → List LaptopSensor
  unfolding send_changed_props
  sent_for (err e) = []
  sent_for (ok props) = send_changed_props props.changed

  -- The loop of `Events`.
  unfoldable pub laptop_events : List (List (Any V)) → List LaptopSensor
  unfolding sent_for parse_properties_changed
  laptop_events [] = []
  laptop_events (event ∷ events) = sent_for (parse_properties_changed event) ++ laptop_events events

current : (String → Option Bool) → List String → List LaptopSensor
unfolding new_laptop_event
current bus [] = []
current bus (prop ∷ props) = elim (bus prop) [
  | none ↦ current bus props
  | some state ↦ new_laptop_event prop state ∷ current bus props
]

-- `Sensors`, for what the bus gives; the list stands for the order of the range over the map.
unfoldable pub laptop_sensors : (String → Option Bool) → List LaptopSensor
unfolding current
laptop_sensors bus = current bus laptop_prop_list
