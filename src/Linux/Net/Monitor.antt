-- ===== src/Linux/Net/Monitor.antt =====
-- connection.go: a connection, and its loops over the events of D-Bus. The loops take the events in
-- the order in which the watch delivers them, up to the end of the context.
use go_hass_agent.Prelude.{
  ℕ, String, Bool, true, false, ◌&&◌, Option, none, some, List, [], ◌∷◌, ◌++◌, ◌==◌, nat_eq,
  if◌then◌else◌, ◌≡◌, refl, ◌∙◌, inl, inr, Bool-cases, arith,
}
use go_hass_agent.Prelude.Dict.{Dict}
use go_hass_agent.Prelude.Text.{elem}
use go_hass_agent.Dbusx.Values.{Any, Result, ok, err, Properties, parse_properties_changed}
use go_hass_agent.Linux.Net.{Variants, variant}
use go_hass_agent.Linux.Net.Address.{
  ipv4, ipv6, Configs, AddrSensor, new_addr_sensor, set_addr_state, update_addr_state,
}
use go_hass_agent.Linux.Net.State.{
  conn_offline, ConnectionStateSensor, new_state_sensor, set_state, update_state,
}
use go_hass_agent.Linux.Net.Wifi.{
  WifiValue, WifiSensor, ap_prop_list, new_wifi_sensor, get_wifi_sensors,
}

-- `connection`, less its channels
pub record Connection : Type 0 where
  pub path : String
  pub name : String
  pub conn_type : String

-- `newConnection`, for what the bus gives for Id and Type; `none` is its error.
unfoldable pub new_connection : String → Option String → Option String → Option Connection
new_connection path none type = none
new_connection path (some name) none = none
new_connection path (some name) (some type) =
    some (record { path = path; name = name; conn_type = type })

-- The sensors of `monitorConnection`.
pub record Monitored : Type 0 where
  pub state : ConnectionStateSensor
  pub ipv4_sensor : AddrSensor
  pub ipv6_sensor : AddrSensor

-- A sensor sent, as it was at the time.
pub data Sent : Type 0 where
  state : ConnectionStateSensor → Sent
  address : AddrSensor → Sent

-- What the bus gives for the state and the two configurations at first.
pub record Initial : Type 0 where
  pub state : Option ℕ
  pub ipv4_config : Option String
  pub ipv6_config : Option String

keep : {A : Type 0} → A → Option A → A
keep a none = a
keep a (some b) = b

module _ {V : Type 0} (ops : Variants V) (configs : Configs V) where
  -- The sensors before the watch starts: an update that fails leaves the new sensor.
  unfoldable pub initial_sensors : (String → String) → Connection → Initial → Monitored
  unfolding keep new_state_sensor new_addr_sensor update_state update_addr_state
  initial_sensors to_snake c i =
      let s : ConnectionStateSensor = new_state_sensor to_snake c.name in
      let a : AddrSensor = new_addr_sensor to_snake ipv4 c.name in
      let b : AddrSensor = new_addr_sensor to_snake ipv6 c.name in
      record {
        state = keep s (update_state i.state s);
        ipv4_sensor = keep a (update_addr_state ops configs i.ipv4_config a);
        ipv6_sensor = keep b (update_addr_state ops configs i.ipv6_config b);
      }

  -- The sensors sent at first.
  unfoldable pub initial_sent : Monitored → List Sent
  initial_sent m = state m.state ∷ address m.ipv4_sensor ∷ address m.ipv6_sensor ∷ []

  state_changed : Option ConnectionStateSensor → Monitored → List Sent × Monitored
  state_changed none m = ([], m)
  state_changed (some s) m = (state s ∷ [], record m { state = s })

  ipv4_changed : Option AddrSensor → Monitored → List Sent × Monitored
  ipv4_changed none m = ([], m)
  ipv4_changed (some s) m = (address s ∷ [], record m { ipv4_sensor = s })

  ipv6_changed : Option AddrSensor → Monitored → List Sent × Monitored
  ipv6_changed none m = ([], m)
  ipv6_changed (some s) m = (address s ∷ [], record m { ipv6_sensor = s })

  -- One changed property.
  unfoldable pub handle_prop : String → String → V → Monitored → List Sent × Monitored
  unfolding state_changed ipv4_changed ipv6_changed set_state set_addr_state
  handle_prop interface prop v m =
      if prop == "State" && interface == "org.freedesktop.NetworkManager.Connection.Active"
      then state_changed (set_state ops (variant v) m.state) m
      else if prop == "Ip4Config"
      then ipv4_changed (set_addr_state ops configs (variant v) m.ipv4_sensor) m
      else if prop == "Ip6Config"
      then ipv6_changed (set_addr_state ops configs (variant v) m.ipv6_sensor) m
      else ([], m)

  unfoldable pub handle_props : String → Dict V → Monitored → List Sent × Monitored
  unfolding handle_prop
  handle_props interface [] m = ([], m)
  handle_props interface ((prop, v) ∷ rest) m =
      let (sent, m') = handle_prop interface prop v m in
      let (more, m'') = handle_props interface rest m' in (sent ++ more, m'')

  abbrev pub is_offline : Monitored → Bool
  is_offline m = nat_eq m.state.value conn_offline

  -- The events that the loop passes over: no change of properties, or statistics.
  unfoldable pub changed_props : List (Any V) → Option (Properties V)
  unfolding parse_properties_changed
  changed_props event = elim (parse_properties_changed event) [
    | err e ↦ none
    | ok props ↦
        if props.interface == "org.freedesktop.NetworkManager.Device.Statistics"
        then none
        else some props
  ]

  -- One event, and whether the loop ends with it: it ends when a change leaves the connection
  -- offline, and passes over an event without a change before that test.
  unfoldable pub on_props : Option (Properties V) → Monitored → List Sent × Monitored × Bool
  unfolding handle_props
  on_props none m = ([], m, false)
  on_props (some props) m =
      let (sent, m') = handle_props props.interface props.changed m in (sent, m', is_offline m')

  -- The loop of `monitorConnection`.
  unfoldable pub monitor_connection : List (List (Any V)) → Monitored → List Sent × Monitored
  unfolding on_props changed_props
  monitor_connection [] m = ([], m)
  monitor_connection (event ∷ events) m =
      let (sent, m', ends) = on_props (changed_props event) m in
      let rest = monitor_connection events m' in
      if ends then (sent, m') else (sent ++ rest.0, rest.1)

  on_props-offline :
      (o : Option (Properties V)) (m : Monitored)
      → is_offline m ≡ false
      → is_offline (on_props o m).1 ≡ (on_props o m).2
  unfolding on_props
  on_props-offline none m h = h
  on_props-offline (some props) m h = refl

  -- Once a connection has gone offline, its monitor has ended: whatever events come after, nothing
  -- more is sent, and the sensors stay as they were.
  pub offline_ends_monitoring :
      (events later : List (List (Any V))) (m : Monitored)
      → is_offline m ≡ false
      → is_offline (monitor_connection events m).1 ≡ true
      → monitor_connection (events ++ later) m ≡ monitor_connection events m
  unfolding monitor_connection
  offline_ends_monitoring [] later m start end = cc
  offline_ends_monitoring (event ∷ events) later m start end =
      elim (Bool-cases (on_props (changed_props event) m).2) [
        | inl e ↦ rw e refl
        | inr e ↦
            let online = on_props-offline (changed_props event) m start ∙ e in
            let ih =
              offline_ends_monitoring events later (on_props (changed_props event) m).1 online
                (ground (arith, e)) in
            rw (e, ih) refl
      ]

-- `getWifiSensors` of each access point, which `monitorWifi` sends at first
initial_wifi : (String → String → Option WifiValue) → List String → List WifiSensor
unfolding get_wifi_sensors
initial_wifi bus [] = []
initial_wifi bus (ap ∷ aps) = get_wifi_sensors (bus ap) ++ initial_wifi bus aps

-- `getWifiAPs`, for what the bus gives as the devices and as the access point of each
access_points : (String → Option String) → List String → List String
access_points bus [] = []
access_points bus (device ∷ devices) = elim (bus device) [
  | none ↦ access_points bus devices
  | some ap ↦ ap ∷ access_points bus devices
]

unfoldable pub get_wifi_aps : (String → Option String) → Option (List String) → List String
unfolding access_points
get_wifi_aps bus none = []
get_wifi_aps bus (some devices) = access_points bus devices

module _ {V : Type 0} (value : V → WifiValue) where
  -- The changes of an access point that `monitorWifi` sends on.
  unfoldable pub wifi_changes : Dict V → List WifiSensor
  unfolding new_wifi_sensor ap_prop_list
  wifi_changes [] = []
  wifi_changes ((prop, v) ∷ rest) =
      let others = wifi_changes rest in
      if elem prop ap_prop_list then new_wifi_sensor prop (value v) ∷ others else others

  wifi_event : Result (Properties V) → List WifiSensor
  unfolding wifi_changes
  wifi_event (err e) = []
  wifi_event (ok props) = wifi_changes props.changed

  -- The loop of `monitorWifi`.
  unfoldable pub monitor_wifi : List (List (Any V)) → List WifiSensor
  unfolding wifi_event parse_properties_changed
  monitor_wifi [] = []
  monitor_wifi (event ∷ events) = wifi_event (parse_properties_changed event) ++ monitor_wifi events
