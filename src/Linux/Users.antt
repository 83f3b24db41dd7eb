-- ===== src/Linux/Users.antt =====
-- internal/linux/user/users.go: the users with a session. V is dbus.Variant.
use go_hass_agent.Prelude.{ℕ, String, false, Option, none, some, List, [], ◌∷◌, length}
use go_hass_agent.Prelude.Dict.{Dict, insert}
use go_hass_agent.Sensor.Classes.{DeviceClass, measurement}
use go_hass_agent.Linux.{LinuxSensor, attributes}
use go_hass_agent.Dbusx.Values.{Any, text}

pub record UsersSensor : Type 0 where
  pub user_names : List String
  pub sensor : LinuxSensor ℕ

-- `newUsersSensor`
unfoldable pub new_users_sensor : UsersSensor
new_users_sensor = record {
  user_names = [];
  sensor = record {
    display_name = "Current Users";
    unique_id = "current_users";
    last_reset = "";
    value = none;
    icon_string = "mdi:account";
    units_string = "users";
    data_source = "D-Bus";
    device_class_value = DeviceClass.none;
    state_class_value = measurement;
    is_binary = false;
    is_diagnostic = false;
  };
}

-- `State`
unfoldable pub users_state : UsersSensor → ℕ
users_state s = length s.user_names

pub data UsersAttribute : Type 0 where
  words : String → UsersAttribute
  names : List String → UsersAttribute

as_words : Dict String → Dict UsersAttribute
as_words [] = []
as_words ((key, t) ∷ rest) = (key, words t) ∷ as_words rest

-- `Attributes`
unfoldable pub users_attributes : UsersSensor → Dict UsersAttribute
unfolding as_words attributes
users_attributes s = insert "usernames" (names s.user_names) (as_words (attributes s.sensor))

-- The user of a session, where its third field is a text.
user_of : {V : Type 0} → List (Any V) → Option String
user_of (a ∷ b ∷ text name ∷ rest) = some name
user_of _ = none

-- `getUsers`, for the sessions of logind, which have five fields; `none` is its error.
users_in : {V : Type 0} → List (List (Any V)) → List String
unfolding user_of
users_in [] = []
users_in (s ∷ sessions) = elim (user_of s) [
  | none ↦ users_in sessions
  | some name ↦ name ∷ users_in sessions
]

unfoldable pub get_users : {V : Type 0} → Option (List (List (Any V))) → Option (List String)
unfolding users_in
get_users none = none
get_users (some sessions) = some (users_in sessions)

-- `sendUpdate`: nothing is sent where the sessions cannot be read.
unfoldable pub send_update : Option (List String) → UsersSensor → List UsersSensor × UsersSensor
send_update none s = ([], s)
send_update (some users) s = let s' : UsersSensor = record s { user_names = users } in (s' ∷ [], s')

abbrev pub or_nil : Option (List String) → List String
or_nil none = []
or_nil (some users) = users

-- `Sensors`, which also returns the sensor with an error, and then with no users
unfoldable pub user_sensors : Option (List String) → UsersSensor → List UsersSensor × UsersSensor
user_sensors users s =
    let s' : UsersSensor = record s { user_names = or_nil users } in (s' ∷ [], s')
