-- ===== src/Preferences.antt =====
-- internal/preferences: prefs.go, hass.go, registration.go and device.go. A nil pointer is `none`.
-- The validator, the TOML reader and writer and what the disk does are parameters; a validation
-- error's text (validation.go) is left out.
pub mod Encoding
pub mod Saving
use go_hass_agent.Prelude.{
  String, Bool, true, false, ◌&&◌, ◌||◌, Option, none, some, ◌==◌, if◌then◌else◌,
}

pub record Mqtt : Type 0 where
  pub server : String
  pub user : String
  pub password : String
  pub topic_prefix : String
  pub enabled : Bool

pub record Registration : Type 0 where
  pub server : String
  pub token : String

pub record Hass : Type 0 where
  pub cloudhook_url : String
  pub remote_ui_url : String
  pub secret : String
  pub webhook_id : String
  pub rest_api_url : String
  pub websocket_url : String
  pub ignore_hass_urls : Bool

pub record Device : Type 0 where
  pub id : String
  pub app_id : String
  pub app_name : String
  pub app_version : String
  pub name : String
  pub manufacturer : String
  pub model : String
  pub os_name : String
  pub os_version : String
  pub push_websocket : Bool
  pub supports_encryption : Bool

pub record Preferences : Type 0 where
  pub mqtt : Option Mqtt
  pub registration : Option Registration
  pub hass : Option Hass
  pub device : Option Device
  pub version : String
  pub file : String
  pub registered : Bool

pub data PreferencesError : Type 0 where
  validation_failed path_failed format_failed write_failed : PreferencesError
  no_preferences file_contents : PreferencesError

abbrev pub default_server : String
default_server = "http://localhost:8123"

abbrev pub default_secret : String
default_secret = "ALongSecretString"

-- `IsDefault` of Registration
unfoldable pub is_default : Registration → Bool
is_default r = r.server == default_server && r.token == default_secret

-- `DefaultPreferences`, with the version that is linked in and what `newDevice` gives.
unfoldable pub default_preferences : String → Option Device → String → Preferences
default_preferences app_version device file = record {
  version = if app_version == "" then "Unknown" else app_version;
  registered = false;
  registration = some (record { server = default_server; token = default_secret });
  hass = some (record {
    cloudhook_url = "";
    remote_ui_url = "";
    secret = "";
    webhook_id = default_secret;
    rest_api_url = default_server;
    websocket_url = default_server;
    ignore_hass_urls = false;
  });
  mqtt =
      some (record { server = ""; user = ""; password = ""; topic_prefix = ""; enabled = false });
  device = device;
  file = file;
}

-- `TopicPrefix` of MQTT
unfoldable pub topic_prefix : Mqtt → String
topic_prefix m = if m.topic_prefix == "" then "homeassistant" else m.topic_prefix

unfoldable pub device_name : Preferences → String
device_name p = elim p.device [ some d ↦ d.name | none ↦ "Unknown Device" ]

unfoldable pub device_id : Preferences → String
device_id p = elim p.device [ some d ↦ d.id | none ↦ "Unknown Device ID" ]

unfoldable pub rest_api_url : Preferences → String
rest_api_url p = elim p.hass [ some h ↦ h.rest_api_url | none ↦ "" ]

unfoldable pub websocket_url : Preferences → String
websocket_url p = elim p.hass [ some h ↦ h.websocket_url | none ↦ "" ]

unfoldable pub webhook_id : Preferences → String
webhook_id p = elim p.hass [ some h ↦ h.webhook_id | none ↦ "" ]

unfoldable pub token : Preferences → String
token p = elim p.registration [ some r ↦ r.token | none ↦ "" ]

-- The text of the file is of a type T. What os.WriteFile does: it writes the whole text, does not open the file, or stops half way.
pub data Writing (T : Type 0) : Type 0 where
  whole refused : Writing T
  partial : T → Writing T

pub record Disk (T : Type 0) : Type 0 where
  pub dir_exists : Bool
  pub mkdir_works : Bool
  pub contents : Option T
  pub readable : Bool
  pub writing : Writing T

-- The validator on the whole preferences, and the TOML writer and reader; the reader fills the
-- preferences it is given, and may stop half way.
pub record Toml (T : Type 0) : Type 0 where
  pub is_valid : Preferences → Bool
  pub marshal : Preferences → Option T
  pub unmarshal : T → Preferences → Bool × Preferences

unfoldable pub write_file : {T : Type 0} → Writing T → T → Disk T → Option PreferencesError × Disk T
write_file whole text d = (none, record d { contents = some text })
write_file refused text d = (some write_failed, d)
write_file (partial head) text d = (some write_failed, record d { contents = some head })

contents_read : Bool × Preferences → Option PreferencesError × Preferences
contents_read (true, p) = (none, p)
contents_read (false, p) = (some file_contents, p)

module _ {T : Type 0} (toml : Toml T) where
  unfoldable pub formatted : Option T → Disk T → Option PreferencesError × Disk T
  unfolding write_file
  formatted none d = (some format_failed, d)
  formatted (some text) d = write_file d.writing text d

  -- `Save`, with checkPath
  unfoldable pub save : Preferences → Disk T → Option PreferencesError × Disk T
  unfolding formatted
  save p d =
      if toml.is_valid p
      then if d.dir_exists || d.mkdir_works
        then formatted (toml.marshal p) (record d { dir_exists = true })
        else (some path_failed, d)
      else (some validation_failed, d)

  read_contents : Option T → Preferences → Option PreferencesError × Preferences
  unfolding contents_read
  read_contents none p = (some no_preferences, p)
  read_contents (some text) p = contents_read (toml.unmarshal text p)

  -- `Load`, from the default preferences
  unfoldable pub load : Disk T → Preferences → Option PreferencesError × Preferences
  unfolding read_contents
  load d defaults =
      if d.readable then read_contents d.contents defaults else (some no_preferences, defaults)

-- `Reset`: whether the file is there and can be removed.
pub data ResetError : Type 0 where
  not_found remove_failed : ResetError

unfoldable pub reset : {T : Type 0} → Bool → Disk T → Option ResetError × Disk T
reset removable d = elim d.contents [
  | none ↦ (some not_found, d)
  | some text ↦ if removable then (none, record d { contents = none }) else (some remove_failed, d)
]
