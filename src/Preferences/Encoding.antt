-- ===== src/Preferences/Encoding.antt =====
-- internal/preferences: what the struct tags of prefs.go, hass.go, registration.go and device.go say
-- of the preferences file. A document gives each key its value, or leaves the key out; printing and
-- parsing a document are the TOML library's, and parameters.
use go_hass_agent.Prelude.{String, Bool, true, false, Option, none, some, ◌==◌, if◌then◌else◌}
use go_hass_agent.Preferences.{Mqtt, Registration, Hass, Device, Preferences, Toml}

pub record MqttTable : Type 0 where
  pub server : Option String
  pub user : Option String
  pub password : Option String
  pub topic_prefix : Option String
  pub enabled : Option Bool

pub record RegistrationTable : Type 0 where
  pub server : Option String
  pub token : Option String

pub record HassTable : Type 0 where
  pub cloudhook_url : Option String
  pub remote_ui_url : Option String
  pub secret : Option String
  pub webhook_id : Option String
  pub apiurl : Option String
  pub websocketurl : Option String
  pub ignore_hass_urls : Option Bool

pub record DeviceTable : Type 0 where
  pub id : Option String
  pub name : Option String

pub record Document : Type 0 where
  pub mqtt : Option MqttTable
  pub registration : Option RegistrationTable
  pub hass : Option HassTable
  pub device : Option DeviceTable
  pub version : Option String
  pub registered : Option Bool

-- The tag omitempty leaves an empty text and a false out.
unfoldable pub text_omitted : String → Option String
text_omitted s = if s == "" then none else some s

unfoldable pub flag_omitted : Bool → Option Bool
flag_omitted false = none
flag_omitted true = some true

unfoldable pub encode_mqtt : Option Mqtt → Option MqttTable
unfolding text_omitted
encode_mqtt none = none
encode_mqtt (some m) = some (record {
  server = text_omitted m.server;
  user = text_omitted m.user;
  password = text_omitted m.password;
  topic_prefix = text_omitted m.topic_prefix;
  enabled = some m.enabled;
})

unfoldable pub encode_registration : Option Registration → Option RegistrationTable
encode_registration none = none
encode_registration (some r) = some (record { server = some r.server; token = some r.token })

unfoldable pub encode_hass : Option Hass → Option HassTable
unfolding text_omitted flag_omitted
encode_hass none = none
encode_hass (some h) = some (record {
  cloudhook_url = text_omitted h.cloudhook_url;
  remote_ui_url = text_omitted h.remote_ui_url;
  secret = text_omitted h.secret;
  webhook_id = some h.webhook_id;
  apiurl = text_omitted h.rest_api_url;
  websocketurl = some h.websocket_url;
  ignore_hass_urls = flag_omitted h.ignore_hass_urls;
})

unfoldable pub encode_device : Option Device → Option DeviceTable
encode_device none = none
encode_device (some d) = some (record { id = some d.id; name = some d.name })

-- A nil pointer is left out.
unfoldable pub encode : Preferences → Document
unfolding encode_mqtt encode_registration encode_hass encode_device
encode p = record {
  mqtt = encode_mqtt p.mqtt;
  registration = encode_registration p.registration;
  hass = encode_hass p.hass;
  device = encode_device p.device;
  version = some p.version;
  registered = some p.registered;
}

-- The reader fills the preferences it is given: a field whose key is left out stays as it was.
unfoldable pub or_old : {A : Type 0} → Option A → A → A
or_old none old = old
or_old (some new) old = new

-- A pointer that is nil is made to point to a new struct where there is a table for it.
abbrev pub mqtt_or_zero : Option Mqtt → Mqtt
mqtt_or_zero (some m) = m
mqtt_or_zero none = record {
  server = "";
  user = "";
  password = "";
  topic_prefix = "";
  enabled = false;
}

abbrev pub registration_or_zero : Option Registration → Registration
registration_or_zero (some r) = r
registration_or_zero none = record { server = ""; token = "" }

abbrev pub hass_or_zero : Option Hass → Hass
hass_or_zero (some h) = h
hass_or_zero none = record {
  cloudhook_url = "";
  remote_ui_url = "";
  secret = "";
  webhook_id = "";
  rest_api_url = "";
  websocket_url = "";
  ignore_hass_urls = false;
}

abbrev pub device_or_zero : Option Device → Device
device_or_zero (some d) = d
device_or_zero none = record {
  id = "";
  app_id = "";
  app_name = "";
  app_version = "";
  name = "";
  manufacturer = "";
  model = "";
  os_name = "";
  os_version = "";
  push_websocket = false;
  supports_encryption = false;
}

unfoldable pub decode_mqtt : Option MqttTable → Option Mqtt → Option Mqtt
unfolding or_old
decode_mqtt none old = old
decode_mqtt (some t) old =
    let o = mqtt_or_zero old in
    some (record {
      server = or_old t.server o.server;
      user = or_old t.user o.user;
      password = or_old t.password o.password;
      topic_prefix = or_old t.topic_prefix o.topic_prefix;
      enabled = or_old t.enabled o.enabled;
    })

unfoldable pub decode_registration :
    Option RegistrationTable → Option Registration → Option Registration
unfolding or_old
decode_registration none old = old
decode_registration (some t) old =
    let o = registration_or_zero old in
    some (record { server = or_old t.server o.server; token = or_old t.token o.token })

unfoldable pub decode_hass : Option HassTable → Option Hass → Option Hass
unfolding or_old
decode_hass none old = old
decode_hass (some t) old =
    let o = hass_or_zero old in
    some (record {
      cloudhook_url = or_old t.cloudhook_url o.cloudhook_url;
      remote_ui_url = or_old t.remote_ui_url o.remote_ui_url;
      secret = or_old t.secret o.secret;
      webhook_id = or_old t.webhook_id o.webhook_id;
      rest_api_url = or_old t.apiurl o.rest_api_url;
      websocket_url = or_old t.websocketurl o.websocket_url;
      ignore_hass_urls = or_old t.ignore_hass_urls o.ignore_hass_urls;
    })

unfoldable pub decode_device : Option DeviceTable → Option Device → Option Device
unfolding or_old
decode_device none old = old
decode_device (some t) old =
    let o = device_or_zero old in
    some (record o { id = or_old t.id o.id; name = or_old t.name o.name })

unfoldable pub decode : Document → Preferences → Preferences
unfolding decode_mqtt decode_registration decode_hass decode_device or_old
decode d old = record old {
  mqtt = decode_mqtt d.mqtt old.mqtt;
  registration = decode_registration d.registration old.registration;
  hass = decode_hass d.hass old.hass;
  device = decode_device d.device old.device;
  version = or_old d.version old.version;
  registered = or_old d.registered old.registered;
}

-- The TOML library, on texts of type T.
pub record TomlLibrary (T : Type 0) : Type 0 where
  pub print : Document → T
  pub parse : T → Option Document

unfoldable pub read_into : Option Document → Preferences → Bool × Preferences
unfolding decode
read_into none old = (false, old)
read_into (some d) old = (true, decode d old)

-- toml.Marshal and toml.Unmarshal of the preferences, beside the validator.
unfoldable pub toml_of : {T : Type 0} → TomlLibrary T → (Preferences → Bool) → Toml T
unfolding encode read_into
toml_of library is_valid = record {
  is_valid = is_valid;
  marshal = λ p. some (library.print (encode p));
  unmarshal = λ text old. read_into (library.parse text) old;
}
