-- ===== src/Linux/Power/Session.antt =====
-- powerState.go and screenLock.go: the signals of logind.
use go_hass_agent.Prelude.{
  String, Bool, true, false, Option, none, some, List, [], ◌∷◌, ◌++◌, ◌==◌, if◌then◌else◌,
}
use go_hass_agent.Linux.{LinuxSensor}
use go_hass_agent.Linux.Power.{power_sensor}
use go_hass_agent.Dbusx.Values.{Any, Result, ok, err, has_property_changed}
use go_hass_agent.Dbusx.Watch.{Trigger}

pub data PowerSignal : Type 0 where
  suspend shutdown : PowerSignal

-- The sensor, whose value is what the signal holds, or none of the types that `State` knows.
pub record PowerStateSensor : Type 0 where
  pub signal : PowerSignal
  pub sensor : LinuxSensor (Option Bool)

-- `newPowerState`
unfoldable pub new_power_state : PowerSignal → Option Bool → PowerStateSensor
unfolding power_sensor
new_power_state signal value = record {
  signal = signal;
  sensor = power_sensor "Power State" "power_state" value "" false true;
}

state_for : PowerSignal → Option Bool → String
state_for signal none = "Unknown"
state_for suspend (some true) = "Suspended"
state_for shutdown (some true) = "Powered Off"
state_for signal (some false) = "Powered On"

state_of : PowerSignal → Option (Option Bool) → String
unfolding state_for
state_of signal none = "Unknown"
state_of signal (some v) = state_for signal v

-- `State`
unfoldable pub power_state : PowerStateSensor → String
unfolding state_of
power_state s = state_of s.signal s.sensor.value

-- `Icon`
unfoldable pub power_icon : PowerStateSensor → String
unfolding power_state
power_icon s =
    if power_state s == "Suspended"
    then "mdi:power-sleep"
    else if power_state s == "Powered Off"
    then "mdi:power-off"
    else "mdi:power-on"

module _ {V : Type 0} (as_bool : Any V → Option Bool) where
  -- The first value of the body; a body without one panics, and is `none`.
  first_value : List (Any V) → Option (Option Bool)
  first_value [] = none
  first_value (a ∷ rest) = some (as_bool a)

  sends : PowerSignal → Option (Option Bool) → List PowerStateSensor
  unfolding new_power_state
  sends signal none = []
  sends signal (some v) = new_power_state signal v ∷ []

  -- One event of the loop of the power state.
  unfoldable pub state_event : Trigger V → List PowerStateSensor
  unfolding first_value sends
  state_event event =
      if event.signal == "PrepareForSleep"
      then sends suspend (first_value event.content)
      else if event.signal == "PrepareForShutdown"
      then sends shutdown (first_value event.content)
      else []

  unfoldable pub state_events : List (Trigger V) → List PowerStateSensor
  unfolding state_event
  state_events [] = []
  state_events (event ∷ events) = state_event event ++ state_events events

-- `Sensors` of the power state
unfoldable pub state_sensors : List PowerStateSensor
unfolding new_power_state
state_sensors = new_power_state shutdown (some false) ∷ []

-- `newScreenlockEvent`
unfoldable pub new_screenlock_event : Bool → LinuxSensor Bool
unfolding power_sensor
new_screenlock_event locked = power_sensor "Screen Lock" "screen_lock" locked "" true false

-- `Icon`
unfoldable pub screenlock_icon : LinuxSensor Bool → String
screenlock_icon s = elim (s.value) [
  | none ↦ "mdi:lock-alert"
  | some locked ↦ if locked then "mdi:eye-lock" else "mdi:eye-lock-open"
]

module _ {V : Type 0} (to_bool : V → Option Bool) where
  lock_changed : Result (Option Bool) → List (LinuxSensor Bool)
  unfolding new_screenlock_event
  lock_changed (err e) = []
  lock_changed (ok none) = []
  lock_changed (ok (some locked)) = new_screenlock_event locked ∷ []

  -- One event of the loop of the screen lock.
  unfoldable pub lock_event : Trigger V → List (LinuxSensor Bool)
  unfolding lock_changed new_screenlock_event has_property_changed
  lock_event event =
      if event.signal == "org.freedesktop.DBus.Properties.PropertiesChanged"
      then lock_changed (has_property_changed to_bool "LockedHint" event.content)
      else if event.signal == "Lock"
      then new_screenlock_event true ∷ []
      else if event.signal == "Unlock"
      then new_screenlock_event false ∷ []
      else []

  unfoldable pub lock_events : List (Trigger V) → List (LinuxSensor Bool)
  unfolding lock_event
  lock_events [] = []
  lock_events (event ∷ events) = lock_event event ++ lock_events events
