-- ===== src/Tests/Storing.antt =====
-- The theorems of the tracker, the registry and the preferences at concrete values.
use go_hass_agent.Prelude.{
  ℕ, Bool, String, List, ◌≡◌, refl, true, false, none, some, [], ◌∷◌, if◌then◌else◌, ◌==◌,
}
use go_hass_agent.Registry.Gob.{
  broken, written, GobRegistry, load, loaded, set_disabled, set_registered, write,
}
use go_hass_agent.Registry.File.{disable, register, changes, load-changes}
use go_hass_agent.Tracker.{Tracker, new_tracker, tracker_not_ready, get, add, sensor_list}
use go_hass_agent.Tracker.Contents.{get-add, sensor_list-Lists, add_all, count, reported}
use go_hass_agent.Prelude.Dict.{Dict}
use go_hass_agent.Prelude.Order.{IsSorted}
use go_hass_agent.Sensor.{Details}
use go_hass_agent.Preferences.{
  Preferences, Disk, whole, save, load as load_preferences, Device, default_preferences,
}
use go_hass_agent.Preferences.Encoding.{Document, TomlLibrary, toml_of}
use go_hass_agent.Preferences.Saving.{restored, load-save}
use go_hass_agent.Tests.Codec.{toy_codec, toy_codec-IsSelfDelimiting}
use go_hass_agent.Tests.Fixtures.{battery, here}

-- The second change breaks the file; the third repairs it.
abbrev rough : GobRegistry
rough = record { sensors = []; file = 7 ∷ 7 ∷ []; outcomes = written ∷ broken (9 ∷ []) ∷ [] }

abbrev after : GobRegistry
after = (changes toy_codec (register "a" true) (disable "a" true ∷ register "b" true ∷ []) rough).1

load-changes_example :
    load toy_codec (record { dir_exists = true; mkdir_works = false; contents = some after.file })
    ≡ loaded (record { sensors = after.sensors; file = after.file; outcomes = [] })
unfolding changes set_disabled set_registered write
load-changes_example =
    load-changes toy_codec toy_codec-IsSelfDelimiting (register "a" true)
      (disable "a" true ∷ register "b" true ∷ []) rough false refl

abbrev held : Dict (Details ℕ)
held = ("location", here) ∷ []

abbrev tracked : Tracker ℕ
tracked = record { sensor = some held }

get-add_example :
    ((add battery tracked).0 ≡ none)
    × (get "location" (add battery tracked).1
        ≡ (if battery.id == "location" then some battery else get "location" tracked))
    × (add battery (record { sensor = none }) ≡ (some tracker_not_ready, record { sensor = none }))
get-add_example = get-add battery held "location"

sensor_list-Lists_example :
    (names : List String) × (sensor_list (add_all (battery ∷ here ∷ []) new_tracker) ≡ some names)
    × IsSorted names
    × (count "battery" names ≡ reported (get "battery" (add_all (battery ∷ here ∷ []) new_tracker)))
sensor_list-Lists_example = sensor_list-Lists (battery ∷ here ∷ []) "battery"

abbrev laptop : Device
laptop = record {
  id = "1";
  app_id = "go-hass-agent";
  app_name = "Go Hass Agent";
  app_version = "10";
  name = "laptop";
  manufacturer = "m";
  model = "l";
  os_name = "linux";
  os_version = "6";
  push_websocket = false;
  supports_encryption = false;
}

abbrev prefs : Preferences
prefs = default_preferences "" (some laptop) "preferences.toml"

-- A file that holds the document itself.
abbrev copied : TomlLibrary Document
copied = record { print = λ d. d; parse = λ text. some text }

abbrev accepting : Preferences → Bool
accepting p = true

abbrev empty_disk : Disk Document
empty_disk = record {
  dir_exists = false;
  mkdir_works = true;
  contents = none;
  readable = true;
  writing = whole;
}

load-save_example :
    load_preferences
      (toml_of copied accepting)
      (save (toml_of copied accepting) prefs empty_disk).1
      prefs
    ≡ (none, restored prefs prefs)
unfolding save toml_of
load-save_example = load-save copied accepting (λ d. refl) prefs prefs empty_disk refl refl
