-- ===== src/Tests/Registering.antt =====
-- The theorems of the registration at concrete values.
use go_hass_agent.Prelude.{◌⊎◌, ℕ, String, ◌≡◌, refl, true, false, none, some, [], ◌∷◌}
use go_hass_agent.Preferences.{Preferences, Toml, Hass, whole, default_preferences}
use go_hass_agent.Agent.Urls.{
  generate_api_url, UrlApi, generate_websocket_url, websocket_is_as_secure,
}
use go_hass_agent.Agent.Register.{AgentState, World, fine, check_registration, register_device}
use go_hass_agent.Agent.Register.Registered.{check_registration-IsRegistered}
use go_hass_agent.Agent.Register.Accepted.{registered_prefs, check_registration-registered_prefs}
use go_hass_agent.Tracker.{reset}
use go_hass_agent.Preferences.{Registration, save}

-- A URL that is only its scheme and its host.
abbrev pairs : UrlApi (String × String)
pairs = record {
  parse = λ s. some ("https", s);
  scheme = λ u. u.0;
  set_scheme = λ s u. (s, u.1);
  join_path = λ parts u. u;
  print = λ u. u.1;
}

websocket_is_as_secure_example :
    (v : String × String) × (generate_websocket_url pairs "hass"
        ≡ some (pairs.print (pairs.join_path ("/api/websocket" ∷ []) v))
      × ((v ≡ ("https", "hass"))
          ⊎ (v ≡ pairs.set_scheme "wss" ("https", "hass"))
          ⊎ (v ≡ pairs.set_scheme "ws" ("https", "hass")))
      × v.0 ≡ "wss")
websocket_is_as_secure_example =
    websocket_is_as_secure pairs "hass" ("https", "hass") (λ s v. refl) refl

abbrev files : Toml Preferences
files = record { is_valid = λ p. true; marshal = λ p. some p; unmarshal = λ text old. (true, text) }

abbrev reply : Hass
reply = record {
  cloudhook_url = "";
  remote_ui_url = "";
  secret = "";
  webhook_id = "hook";
  rest_api_url = "";
  websocket_url = "";
  ignore_hass_urls = false;
}

abbrev surroundings : World
surroundings = record {
  ask = λ p. p;
  registration_valid = λ r. true;
  removable = true;
  post = λ u d t. some reply;
}

abbrev agent : AgentState Preferences ℕ
agent = record {
  prefs = default_preferences "" none "preferences.toml";
  force_register = true;
  headless = true;
  tracker = record { sensor = some [] };
  disk = record {
    dir_exists = true;
    mkdir_works = true;
    contents = none;
    readable = true;
    writing = whole;
  };
  registry_there = true;
}

check_registration-IsRegistered_example :
    let after = (check_registration pairs files surroundings agent).1 in
    (after.prefs.registered ≡ true)
    × (after.disk.contents ≡ some after.prefs)
    × (after.tracker ≡ reset agent.tracker)
unfolding check_registration default_preferences register_device generate_api_url
    generate_websocket_url save
check_registration-IsRegistered_example =
    check_registration-IsRegistered pairs files surroundings agent refl refl

abbrev local : Registration
local = record { server = "http://localhost:8123"; token = "ALongSecretString" }

abbrev unset : Hass
unset = record {
  cloudhook_url = "";
  remote_ui_url = "";
  secret = "";
  webhook_id = "ALongSecretString";
  rest_api_url = "http://localhost:8123";
  websocket_url = "http://localhost:8123";
  ignore_hass_urls = false;
}

check_registration-registered_prefs_example :
    let after =
      registered_prefs pairs files surroundings agent local unset reply "http://localhost:8123"
        "http://localhost:8123" in
    ((check_registration pairs files surroundings agent).0 ≡ fine)
    × ((check_registration pairs files surroundings agent).1.prefs ≡ after)
    × ((check_registration pairs files surroundings agent).1.disk.contents ≡ some after)
unfolding default_preferences register_device generate_api_url generate_websocket_url
check_registration-registered_prefs_example =
    check_registration-registered_prefs pairs files surroundings agent local unset reply
      "http://localhost:8123" "http://localhost:8123"
      (registered_prefs pairs files surroundings agent local unset reply "http://localhost:8123"
        "http://localhost:8123")
      refl refl refl refl refl refl refl refl refl refl refl
