-- ===== src/Preferences/Saving.antt =====
-- internal/preferences/prefs.go: `Save` and then `Load`, with the TOML library's printer and parser.
use go_hass_agent.Prelude.{
  String, Bool, true, false, ◌||◌, Option, none, some, ◌≡◌, refl, ap, ◌∙◌, ◌==◌, if◌then◌else◌,
  arith,
}
use go_hass_agent.Preferences.{
  Mqtt, Registration, Hass, Device, Preferences, Disk, Writing, whole, refused, partial, save, load,
  formatted, write_file,
}
use go_hass_agent.Preferences.Encoding.{
  Document, TomlLibrary, text_omitted, flag_omitted, or_old, mqtt_or_zero, hass_or_zero,
  device_or_zero, encode_mqtt, encode_registration, encode_hass, encode_device, encode, decode_mqtt,
  decode_registration, decode_hass, decode_device, decode, read_into, toml_of,
}

-- What comes back of a text that is left out of the file where it is empty.
abbrev pub kept : String → String → String
kept saved old = if saved == "" then old else saved

-- What comes back of each part: without the part, the one that there was before.
abbrev pub restored_mqtt : Option Mqtt → Option Mqtt → Option Mqtt
restored_mqtt none old = old
restored_mqtt (some m) old =
    let o = mqtt_or_zero old in
    some (record {
      server = kept m.server o.server;
      user = kept m.user o.user;
      password = kept m.password o.password;
      topic_prefix = kept m.topic_prefix o.topic_prefix;
      enabled = m.enabled;
    })

abbrev pub restored_registration : Option Registration → Option Registration → Option Registration
restored_registration none old = old
restored_registration (some r) old = some r

abbrev pub restored_hass : Option Hass → Option Hass → Option Hass
restored_hass none old = old
restored_hass (some h) old =
    let o = hass_or_zero old in
    some (record {
      cloudhook_url = kept h.cloudhook_url o.cloudhook_url;
      remote_ui_url = kept h.remote_ui_url o.remote_ui_url;
      secret = kept h.secret o.secret;
      webhook_id = h.webhook_id;
      rest_api_url = kept h.rest_api_url o.rest_api_url;
      websocket_url = h.websocket_url;
      ignore_hass_urls = h.ignore_hass_urls || o.ignore_hass_urls;
    })

abbrev pub restored_device : Option Device → Option Device → Option Device
restored_device none old = old
restored_device (some d) old = some (record (device_or_zero old) { id = d.id; name = d.name })

abbrev pub restored : Preferences → Preferences → Preferences
restored p old = record {
  mqtt = restored_mqtt p.mqtt old.mqtt;
  registration = restored_registration p.registration old.registration;
  hass = restored_hass p.hass old.hass;
  device = restored_device p.device old.device;
  version = p.version;
  file = old.file;
  registered = p.registered;
}

text_back : (s old : String) → or_old (text_omitted s) old ≡ kept s old
unfolding or_old text_omitted
text_back s old = ground arith

flag_back : (b old : Bool) → or_old (flag_omitted b) old ≡ (b || old)
unfolding or_old flag_omitted
flag_back false old = refl
flag_back true old = refl

mqtt_back : (m old : Option Mqtt) → decode_mqtt (encode_mqtt m) old ≡ restored_mqtt m old
unfolding decode_mqtt encode_mqtt
mqtt_back none old = refl
mqtt_back (some m) old =
    let o = mqtt_or_zero old in
    λ i. some (record {
      server = text_back m.server o.server i;
      user = text_back m.user o.user i;
      password = text_back m.password o.password i;
      topic_prefix = text_back m.topic_prefix o.topic_prefix i;
      enabled = m.enabled;
    })

registration_back :
    (r old : Option Registration)
    → decode_registration (encode_registration r) old ≡ restored_registration r old
unfolding decode_registration encode_registration
registration_back none old = refl
registration_back (some r) old = refl

hass_back : (h old : Option Hass) → decode_hass (encode_hass h) old ≡ restored_hass h old
unfolding decode_hass encode_hass
hass_back none old = refl
hass_back (some h) old =
    let o = hass_or_zero old in
    λ i. some (record {
      cloudhook_url = text_back h.cloudhook_url o.cloudhook_url i;
      remote_ui_url = text_back h.remote_ui_url o.remote_ui_url i;
      secret = text_back h.secret o.secret i;
      webhook_id = h.webhook_id;
      rest_api_url = text_back h.rest_api_url o.rest_api_url i;
      websocket_url = h.websocket_url;
      ignore_hass_urls = flag_back h.ignore_hass_urls o.ignore_hass_urls i;
    })

device_back : (d old : Option Device) → decode_device (encode_device d) old ≡ restored_device d old
unfolding decode_device encode_device
device_back none old = refl
device_back (some d) old = refl

decode-encode : (p old : Preferences) → decode (encode p) old ≡ restored p old
unfolding decode encode
decode-encode p old = λ i. record {
  mqtt = mqtt_back p.mqtt old.mqtt i;
  registration = registration_back p.registration old.registration i;
  hass = hass_back p.hass old.hass i;
  device = device_back p.device old.device i;
  version = p.version;
  file = old.file;
  registered = p.registered;
}

module _ {T : Type 0} (library : TomlLibrary T) (is_valid : Preferences → Bool)
    (law : (d : Document) → library.parse (library.print d) ≡ some d) where
  read_back :
      (p old : Preferences)
      → read_into (library.parse (library.print (encode p))) old ≡ (true, restored p old)
  unfolding read_into
  read_back p old =
      ap (λ o. read_into o old) (law (encode p)) ∙ ap (λ q. (true, q)) (decode-encode p old)

  write_back :
      (p old : Preferences) (d : Disk T) (w : Writing T)
      → d.readable ≡ true
      → (write_file w (library.print (encode p)) d).0 ≡ none
      → load (toml_of library is_valid) (write_file w (library.print (encode p)) d).1 old
        ≡ (none, restored p old)
  unfolding write_file load toml_of
  write_back p old d whole r h = rw (r, read_back p old) refl
  write_back p old d refused r h = cc
  write_back p old d (partial head) r h = cc

  -- Where the TOML library parses what it prints: after a save that gives no error, a load from the
  -- same disk gives no error either. It gives back what was saved into the preferences that the
  -- load starts from: a field of the MQTT or the Home Assistant part whose tag has omitempty keeps
  -- its old value where the saved one was empty or false; a part that was a nil pointer stays as it
  -- was; of the device only the id and the name come from the file; and the file's own path is not
  -- in it.
  pub load-save :
      (p old : Preferences) (d : Disk T)
      → d.readable ≡ true
      → (save (toml_of library is_valid) p d).0 ≡ none
      → load (toml_of library is_valid) (save (toml_of library is_valid) p d).1 old
        ≡ (none, restored p old)
  unfolding save formatted toml_of
  load-save p old d r h =
      ground (arith, write_back p old (record d { dir_exists = true }) d.writing r)
