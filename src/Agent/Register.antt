-- ===== src/Agent/Register.antt =====
-- internal/agent/register.go, and `RegisterDevice` of internal/hass/registration.go. The window
-- that asks the user, the validator and the request that is sent are parameters.
pub mod Registered
pub mod Accepted
use go_hass_agent.Prelude.{
  String, Bool, true, false, not, ◌&&◌, Option, none, some, List, [], ◌∷◌, ◌≡◌, ◌≢◌, refl, ap,
  arith, if◌then◌else◌, ◌==◌,
}
use go_hass_agent.Preferences.{
  Preferences, Registration, Hass, Device, Disk, Toml, PreferencesError, save, is_default,
}
use go_hass_agent.Tracker.{Tracker, reset}
use go_hass_agent.Agent.Urls.{UrlApi, generate_api_url, generate_websocket_url}
use go_hass_agent.Registry.Gob.{ResetError, not_found, remove_failed, reset as reset_registry}
use Prim.Native.String

pub record AgentState (T V : Type 0) : Type 0 where
  pub prefs : Preferences
  pub force_register : Bool
  pub headless : Bool
  pub tracker : Tracker V
  pub disk : Disk T
  pub registry_there : Bool

-- `panicked` is the use of a nil pointer.
pub data RegisterResult : Type 0 where
  fine panicked : RegisterResult
  device_failed api_url_failed websocket_url_failed : RegisterResult
  save_failed : PreferencesError → RegisterResult

-- `ask` is what the user enters in the registration window; `removable` says whether the
-- registry's directory can be removed; `post` is the request that the client
-- sends to a URL, with the device and the token, and the response.
pub record World : Type 0 where
  pub ask : Preferences → Preferences
  pub registration_valid : Registration → Bool
  pub removable : Bool
  pub post : String → Option Device → String → Option Hass

unfoldable pub register_device : World → Option Device → Registration → Option Hass
register_device w device r =
    if w.registration_valid r
    then w.post (String.◌++◌ r.server "/api/mobile_app/registrations") device r.token
    else none

still_there : Option ResetError → Bool
still_there none = false
still_there (some not_found) = false
still_there (some remove_failed) = true

module _ {U T V : Type 0} (url : UrlApi U) (toml : Toml T) (w : World) where
  unfoldable pub saved :
      Option PreferencesError × Disk T → AgentState T V → RegisterResult × AgentState T V
  saved (none, d) a = (fine, record a { disk = d })
  saved (some e, d) a = (save_failed e, record a { disk = d })

  -- Each step of `saveRegistration` sets a field of the preferences before the next one can fail,
  -- and an error sets the field to the empty text.
  unfoldable pub with_socket :
      Option String → Hass → AgentState T V → RegisterResult × AgentState T V
  unfolding saved
  with_socket none h a = (
    websocket_url_failed,
    record a { prefs = record a.prefs { hass = some (record h { websocket_url = "" }) } },
  )
  with_socket (some socket) h a =
      let p = record a.prefs {
        hass = some (record h { websocket_url = socket });
        registered = true;
      } in
      saved (save toml p a.disk) (record a { prefs = p })

  unfoldable pub with_api :
      Option String → Registration → Hass → AgentState T V → RegisterResult × AgentState T V
  unfolding with_socket
  with_api none r h a = (
    api_url_failed,
    record a { prefs = record a.prefs { hass = some (record h { rest_api_url = "" }) } },
  )
  with_api (some api) r h a =
      with_socket (generate_websocket_url url r.server) (record h { rest_api_url = api }) a

  unfoldable pub save_with :
      Option Registration → Hass → AgentState T V → RegisterResult × AgentState T V
  unfolding with_api
  save_with none h a = (panicked, record a { prefs = record a.prefs { hass = some h } })
  save_with (some r) h a = with_api (generate_api_url url r.server h) r h a

  -- `saveRegistration`
  unfoldable pub save_registration : Hass → Bool → AgentState T V → RegisterResult × AgentState T V
  unfolding save_with
  save_registration new ignore_urls a =
      save_with a.prefs.registration (record new { ignore_hass_urls = ignore_urls }) a

  -- The end of `checkRegistration`: a forced registration empties the tracker and removes the
  -- registry; an error of the latter is logged.
  unfoldable pub cleared : RegisterResult × AgentState T V → RegisterResult × AgentState T V
  unfolding still_there
  cleared (fine, a) = (
    fine,
    if a.force_register
        then record a {
          tracker = reset a.tracker;
          registry_there = still_there (reset_registry a.registry_there w.removable);
        }
        else a,
  )
  cleared (panicked, a) = (panicked, a)
  cleared (device_failed, a) = (device_failed, a)
  cleared (api_url_failed, a) = (api_url_failed, a)
  cleared (websocket_url_failed, a) = (websocket_url_failed, a)
  cleared (save_failed e, a) = (save_failed e, a)

  unfoldable pub with_details :
      Option Hass → Option Hass → AgentState T V → RegisterResult × AgentState T V
  unfolding cleared save_registration
  with_details none old a = (device_failed, a)
  with_details (some new) none a = (panicked, a)
  with_details (some new) (some old) a = cleared (save_registration new old.ignore_hass_urls a)

  unfoldable pub register_as :
      Option Registration → AgentState T V → RegisterResult × AgentState T V
  unfolding with_details
  register_as none a = (device_failed, a)
  register_as (some r) a = with_details (register_device w a.prefs.device r) a.prefs.hass a

  -- The question to the user, when the agent is not headless and the registration is the default
  -- one.
  unfoldable pub ask_first :
      Bool → Option Registration → AgentState T V → RegisterResult × AgentState T V
  unfolding register_as
  ask_first true r a = register_as r a
  ask_first false none a = (panicked, a)
  ask_first false (some r) a =
      let a' : AgentState T V = if is_default r then record a { prefs = w.ask a.prefs } else a in
      register_as a'.prefs.registration a'

  -- `checkRegistration`
  unfoldable pub check_registration : AgentState T V → RegisterResult × AgentState T V
  unfolding ask_first
  check_registration a =
      if a.prefs.registered && not a.force_register
      then (fine, a)
      else ask_first a.headless a.prefs.registration a
