-- ===== src/Linux/System/DbusCommand.antt =====
-- dbusCommand.go: a method of D-Bus called for a message of MQTT. JSON is a parameter.
use go_hass_agent.Prelude.{String, Bool, Option, none, some, List, ◌==◌, if◌then◌else◌}
use go_hass_agent.Prelude.Text.{◌+++◌}

-- dbusCommandMsg; A is a decoded argument
pub record DbusCommandMsg (A : Type 0) : Type 0 where
  pub bus : String
  pub destination : String
  pub path : String
  pub method : String
  pub args : List A
  pub use_session_path : Bool

pub data BusName : Type 0 where
  session system : BusName

-- busMap
unfoldable pub bus_of : String → Option BusName
bus_of name =
    if name == "session" then some session else if name == "system" then some system else none

-- A call of a method.
pub record DbusCall (A : Type 0) : Type 0 where
  pub bus : BusName
  pub destination : String
  pub path : String
  pub method : String
  pub args : List A

module _ {A : Type 0} (session_path : BusName → Option String) where
  call_at : BusName → DbusCommandMsg A → String → DbusCall A
  call_at bus msg path = record {
    bus = bus;
    destination = msg.destination;
    path = path;
    method = msg.method;
    args = msg.args;
  }

  -- The path of the session is asked for on the session bus.
  dispatch : DbusCommandMsg A → Option BusName → Option (DbusCall A)
  unfolding call_at
  dispatch msg none = none
  dispatch msg (some bus) =
      if msg.use_session_path
      then elim (session_path session) [ none ↦ none | some path ↦ some (call_at bus msg path) ]
      else some (call_at bus msg msg.path)

  -- The callback, for the decoded message; `none` where it calls nothing.
  unfoldable pub dbus_command : Option (DbusCommandMsg A) → Option (DbusCall A)
  unfolding dispatch bus_of
  dbus_command none = none
  dbus_command (some msg) = dispatch msg (bus_of msg.bus)

-- The topic of the subscription; without both buses there is none.
unfoldable pub command_topic : Bool → Bool → String → Option String
command_topic system_bus session_bus device =
    if system_bus
    then (if session_bus then some ("gohassagent/" +++ device +++ "/dbuscommand") else none)
    else none
