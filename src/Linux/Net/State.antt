-- ===== src/Linux/Net/State.antt =====
-- connectionStateSensor.go and the generated names of its states and icons.
use go_hass_agent.Prelude.{ℕ, String, Option, none, some, nat_eq, if◌then◌else◌}
use go_hass_agent.Prelude.Text.{◌+++◌}
use go_hass_agent.Linux.Net.{Variants, Setting, text, object_path, variant, uint32, unsupported}

-- connOffline, the last of the states 0 to 4
abbrev pub conn_offline : ℕ
conn_offline = 4

pub record ConnectionStateSensor : Type 0 where
  pub display_name : String
  pub unique_id : String
  pub value : ℕ

-- The text of a number is a parameter.
unfoldable pub conn_state_string : (ℕ → String) → ℕ → String
conn_state_string format n =
    if nat_eq n 0
    then "Unknown"
    else if nat_eq n 1
    then "Activating"
    else if nat_eq n 2
    then "Online"
    else if nat_eq n 3
    then "Deactivating"
    else if nat_eq n 4
    then "Offline"
    else "connState(" +++ format n +++ ")"

unfoldable pub conn_icon_string : (ℕ → String) → ℕ → String
conn_icon_string format n =
    if nat_eq n 0
    then "mdi:help-network"
    else if nat_eq n 1
    then "mdi:plus-network"
    else if nat_eq n 2
    then "mdi:network"
    else if nat_eq n 3
    then "mdi:network-minus"
    else if nat_eq n 4
    then "mdi:network-off"
    else "connIcon(" +++ format n +++ ")"

-- `newConnectionStateSensor`
unfoldable pub new_state_sensor : (String → String) → String → ConnectionStateSensor
new_state_sensor to_snake name = record {
  display_name = name +++ " Connection State";
  unique_id = to_snake name +++ "_connection_state";
  value = 0;
}

-- `Icon` and `State`
unfoldable pub state_icon : (ℕ → String) → ConnectionStateSensor → String
unfolding conn_icon_string
state_icon format s = conn_icon_string format s.value

unfoldable pub state_text : (ℕ → String) → ConnectionStateSensor → String
unfolding conn_state_string
state_text format s = conn_state_string format s.value

with_value : Option ℕ → ConnectionStateSensor → Option ConnectionStateSensor
with_value none s = none
with_value (some n) s = some (record s { value = n })

-- `setState`; `none` is its error.
unfoldable pub set_state :
    {V : Type 0} → Variants V → Setting V → ConnectionStateSensor → Option ConnectionStateSensor
unfolding with_value
set_state ops (variant v) s = with_value (ops.to_state v) s
set_state ops (uint32 n) s = some (record s { value = n })
set_state ops (text t) s = none
set_state ops (object_path p) s = none
set_state ops unsupported s = none

-- `updateState`
unfoldable pub update_state : Option ℕ → ConnectionStateSensor → Option ConnectionStateSensor
unfolding with_value
update_state answer s = with_value answer s
