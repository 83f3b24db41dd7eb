-- ===== src/Linux/Power/Control.antt =====
-- powerControl.go: the buttons for reboot, suspend, hibernate and power off.
use go_hass_agent.Prelude.{
  String, Bool, true, false, ◌||◌, Option, none, some, List, [], ◌∷◌, ◌==◌, map, if◌then◌else◌, ◌≡◌,
  refl, ap, arith,
}
use go_hass_agent.Prelude.Text.{◌+++◌}

pub record PowerCommand : Type 0 where
  pub name : String
  pub id : String
  pub method : String
  pub icon : String

-- `systemCommands`
unfoldable pub system_commands : String → List PowerCommand
system_commands device =
    record { name = "Reboot"; id = device +++ "_reboot"; method = "Reboot"; icon = "mdi:restart" }
    ∷ record {
      name = "Suspend";
      id = device +++ "_suspend";
      method = "Suspend";
      icon = "mdi:power-sleep";
    }
    ∷ record {
      name = "Hibernate";
      id = device +++ "_hibernate";
      method = "Hibernate";
      icon = "mdi:power-sleep";
    }
    ∷ record {
      name = "Power Off";
      id = device +++ "_poweroff";
      method = "PowerOff";
      icon = "mdi:power";
    }
    ∷ []

-- The test on the answer of logind to Can and the method: `none` is an error, with which the answer
-- is the empty text.
unfoldable pub is_available : Option String → Bool
is_available none = "" == "yes" || false
is_available (some answer) = answer == "yes" || true

unfoldable pub available_of : (String → Option String) → List PowerCommand → List PowerCommand
unfolding is_available
available_of can [] = []
available_of can (c ∷ cs) =
    let rest = available_of can cs in if is_available (can c.method) then c ∷ rest else rest

-- `generateCommands`
unfoldable pub generate_commands : (String → Option String) → String → List PowerCommand
unfolding available_of system_commands
generate_commands can device = available_of can (system_commands device)

-- A button, and the call that it makes: the interface, the path and the method.
pub record Button : Type 0 where
  pub name : String
  pub id : String
  pub icon : String
  pub target : String
  pub path : String
  pub method : String

-- `NewPowerControl`, where the bus and the session path are known
unfoldable pub power_button : PowerCommand → Button
power_button c = record {
  name = c.name;
  id = c.id;
  icon = c.icon;
  target = "org.freedesktop.login1";
  path = "/org/freedesktop/login1";
  method = "org.freedesktop.login1.Manager." +++ c.method;
}

unfoldable pub new_power_control :
    Bool → Bool → (String → Option String) → String → Option (List Button)
unfolding generate_commands power_button
new_power_control bus session can device =
    if bus
    then (if session then some (map power_button (generate_commands can device)) else none)
    else none

answered :
    (can : String → Option String) (cs : List PowerCommand)
    → ((m : String) → (a : String) × (can m ≡ some a))
    → available_of can cs ≡ cs
unfolding available_of
answered can [] h = refl
answered can (c ∷ cs) h = ground (arith, (h c.method).1, answered can cs h)

-- A button for each power method is offered as soon as logind answers, whatever the answer is: it
-- may be no, na or challenge, since the answer is only looked at where there is an error.
pub offered_whatever_answered :
    (can : String → Option String) (device : String)
    → ((method : String) → (answer : String) × (can method ≡ some answer))
    → new_power_control true true can device ≡ some (map power_button (system_commands device))
unfolding new_power_control generate_commands
offered_whatever_answered can device h =
    ap (λ cs. some (map power_button cs)) (answered can (system_commands device) h)
