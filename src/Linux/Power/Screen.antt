-- ===== src/Linux/Power/Screen.antt =====
-- screenLockControl.go: the buttons that lock the screen, by the desktop of the session.
use go_hass_agent.Prelude.{String, Bool, ◌||◌, Option, none, some, List, [], ◌∷◌, if◌then◌else◌}
use go_hass_agent.Prelude.Text.{◌+++◌, contains}

-- Which bus a command goes to.
pub data BusKind : Type 0 where
  session_bus system_bus : BusKind

pub record ScreenControlCommand : Type 0 where
  pub name : String
  pub id : String
  pub icon : String
  pub intr : String
  pub path : String
  pub method : String
  pub bus : BusKind

pub data ScreenError : Type 0 where
  no_session_bus no_system_bus no_session_path unsupported_desktop : ScreenError

pub data Commands : Type 0 where
  commands : List ScreenControlCommand → Commands
  failed : ScreenError → Commands

logind_command : String → String → String → String → String → ScreenControlCommand
logind_command name id icon path method = record {
  name = name;
  id = id;
  icon = icon;
  intr = "org.freedesktop.login1";
  path = path;
  method = "org.freedesktop.login1.Session." +++ method;
  bus = system_bus;
}

screensaver : String → String → String → ScreenControlCommand
screensaver device intr path = record {
  name = "Activate Screensaver";
  id = device +++ "_activate_screensaver";
  icon = "mdi:eye-lock";
  intr = intr;
  path = path;
  method = intr +++ ".Lock";
  bus = session_bus;
}

logind_commands : String → Option String → Commands
unfolding logind_command
logind_commands device none = failed no_session_path
logind_commands device (some path) = commands (
    logind_command "Lock Session" (device +++ "_lock_session") "mdi:eye-lock" path "Lock"
    ∷ logind_command "Unlock Session" (device +++ "_unlock_session") "mdi:eye-lock-open" path
        "UnLock"
    ∷ [])

-- `setupCommands`, for XDG_CURRENT_DESKTOP and the path of the session that logind gives
unfoldable pub setup_commands : String → Option String → String → Commands
unfolding logind_commands screensaver
setup_commands desktop session_path device =
    if contains desktop "KDE" || contains desktop "GNOME"
    then logind_commands device session_path
    else if contains desktop "XFCE"
    then commands (screensaver device "org.xfce.ScreenSaver" "/" ∷ [])
    else if contains desktop "Cinnamon"
    then commands (screensaver device "org.cinnamon.ScreenSaver" "/org/cinnamon/ScreenSaver" ∷ [])
    else failed unsupported_desktop

-- `NewScreenLockControl`, less the buttons that it makes of the commands
unfoldable pub new_screen_lock_control : Bool → Bool → String → Option String → String → Commands
unfolding setup_commands
new_screen_lock_control session system desktop session_path device =
    if session
    then (if system then setup_commands desktop session_path device else failed no_system_bus)
    else failed no_session_bus
