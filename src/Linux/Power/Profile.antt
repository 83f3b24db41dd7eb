-- ===== src/Linux/Power/Profile.antt =====
-- powerProfile.go
use go_hass_agent.Prelude.{String, true, false, Option, none, some, List, [], ◌∷◌, ◌++◌}
use go_hass_agent.Linux.{LinuxSensor}
use go_hass_agent.Linux.Power.{power_sensor}
use go_hass_agent.Dbusx.Values.{Any, Result, ok, err, has_property_changed}

-- `newPowerSensor`
unfoldable pub new_power_sensor : String → LinuxSensor String
unfolding power_sensor
new_power_sensor profile =
    power_sensor "Power Profile" "power_profile" profile "mdi:flash" false true

-- `Sensors`, for what the bus gives as the active profile; `none` is its error.
unfoldable pub profile_sensors : Result String → Option (List (LinuxSensor String))
unfolding new_power_sensor
profile_sensors (err e) = none
profile_sensors (ok profile) = some (new_power_sensor profile ∷ [])

module _ {V : Type 0} (to_text : V → Option String) where
  profile_changed : Result (Option String) → List (LinuxSensor String)
  unfolding new_power_sensor
  profile_changed (err e) = []
  profile_changed (ok none) = []
  profile_changed (ok (some profile)) = new_power_sensor profile ∷ []

  loop : List (List (Any V)) → List (LinuxSensor String)
  unfolding profile_changed has_property_changed
  loop [] = []
  loop (event ∷ events) =
      profile_changed (has_property_changed to_text "ActiveProfile" event) ++ loop events

  -- `Events`: the active profile at first, then its changes
  unfoldable pub profile_events : Result String → List (List (Any V)) → List (LinuxSensor String)
  unfolding loop profile_sensors
  profile_events first events = elim (profile_sensors first) [
    | none ↦ loop events
    | some sensors ↦ sensors ++ loop events
  ]
