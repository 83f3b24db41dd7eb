-- ===== src/Agent/Register/Accepted.antt =====
-- internal/agent/register.go: a registration in which nothing fails.
use go_hass_agent.Prelude.{String, true, false, not, ◌&&◌, ◌||◌, some, ◌≡◌, arith}
use go_hass_agent.Preferences.{
  Preferences, Registration, Hass, Toml, save, formatted, write_file, whole,
}
use go_hass_agent.Agent.Urls.{UrlApi, generate_api_url, generate_websocket_url}
use go_hass_agent.Agent.Register.{
  AgentState, fine, World, saved, with_socket, with_api, save_registration, cleared, with_details,
  register_as, ask_first, save_with, check_registration, register_device,
}

module _ {U T V : Type 0} (url : UrlApi U) (toml : Toml T) (w : World) (a : AgentState T V)
    (r : Registration) (old new : Hass) where
  -- The new details keep the user's choice of whether to use Home Assistant's URLs.
  abbrev pub kept : Hass
  kept = record new { ignore_hass_urls = old.ignore_hass_urls }

  -- The preferences after the registration, with the URLs.
  abbrev pub registered_prefs : String → String → Preferences
  registered_prefs api socket = record a.prefs {
    hass = some (record kept { rest_api_url = api; websocket_url = socket });
    registered = true;
  }

  module _ (api socket : String) (text : T)
      (needed : a.prefs.registered && not a.force_register ≡ false) (headless : a.headless ≡ true)
      (registration : a.prefs.registration ≡ some r) (before : a.prefs.hass ≡ some old)
      (accepted : register_device w a.prefs.device r ≡ some new)
      (api_made : generate_api_url url r.server kept ≡ some api)
      (socket_made : generate_websocket_url url r.server ≡ some socket)
      (valid : toml.is_valid (registered_prefs api socket) ≡ true)
      (formats : toml.marshal (registered_prefs api socket) ≡ some text)
      (dir : a.disk.dir_exists || a.disk.mkdir_works ≡ true) (writes : a.disk.writing ≡ whole) where
    -- A headless agent that has to register, whose registration Home Assistant accepts, with URLs
    -- that can be made and preferences that can be checked, formatted and written: the
    -- registration gives no error; the preferences are those of before, marked as registered,
    -- with Home Assistant's details, the user's choice of URLs and the two URLs that were made;
    -- and the file holds them.
    pub check_registration-registered_prefs :
        ((check_registration url toml w a).0 ≡ fine)
        × ((check_registration url toml w a).1.prefs ≡ registered_prefs api socket)
        × ((check_registration url toml w a).1.disk.contents ≡ some text)
    unfolding check_registration ask_first register_as with_details save_registration save_with
        with_api with_socket saved cleared save formatted write_file
    check_registration-registered_prefs = ground arith
