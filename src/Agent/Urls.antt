-- ===== src/Agent/Urls.antt =====
-- internal/agent/register.go: `generateAPIURL` and `generateWebsocketURL`. The package net/url is
-- a parameter.
use go_hass_agent.Prelude.{
  String, ◌⊎◌, refl, not, ◌&&◌, ◌||◌, Option, none, some, List, [], ◌∷◌, ◌≡◌, ◌==◌, eq_iff,
  if◌then◌else◌, arith,
}
use go_hass_agent.Preferences.{Hass}
use Prim.Native.String

pub record UrlApi (U : Type 0) : Type 0 where
  pub parse : String → Option U
  pub scheme : U → String
  pub set_scheme : String → U → U
  pub join_path : List String → U → U
  pub print : U → String

abbrev pub web_hook_path : String
web_hook_path = "/api/webhook/"

abbrev pub websocket_path : String
websocket_path = "/api/websocket"

module _ {U : Type 0} (url : UrlApi U) where
  joined : List String → Option U → Option String
  joined parts none = none
  joined parts (some u) = some (url.print (url.join_path parts u))

  -- `none` is the error of a server that does not parse.
  unfoldable pub generate_api_url : String → Hass → Option String
  unfolding joined
  generate_api_url server h =
      if not (h.cloudhook_url == "") && not h.ignore_hass_urls
      then some h.cloudhook_url
      else if not (h.remote_ui_url == "") && not (h.webhook_id == "") && not h.ignore_hass_urls
      then some (String.◌++◌ (String.◌++◌ h.remote_ui_url web_hook_path) h.webhook_id)
      else joined (web_hook_path ∷ h.webhook_id ∷ []) (url.parse server)

  with_socket_scheme : U → U
  with_socket_scheme u =
      if url.scheme u == "https"
      then url.set_scheme "wss" u
      else if url.scheme u == "http"
      then url.set_scheme "ws" u
      else if url.scheme u == "wss"
      then u
      else url.set_scheme "ws" u

  socket_of : Option U → Option String
  unfolding with_socket_scheme
  socket_of none = none
  socket_of (some u) = some (url.print (url.join_path (websocket_path ∷ []) (with_socket_scheme u)))

  unfoldable pub generate_websocket_url : String → Option String
  unfolding socket_of
  generate_websocket_url host = socket_of (url.parse host)

  scheme_set :
      (u : U)
      → ((s : String) (v : U) → url.scheme (url.set_scheme s v) ≡ s)
      → url.scheme (with_socket_scheme u)
        ≡ (if url.scheme u == "https" || url.scheme u == "wss" then "wss" else "ws")
  unfolding with_socket_scheme
  scheme_set u law = ground (
    arith,
    law "wss" u,
    law "ws" u,
    eq_iff (url.scheme u) "https",
    eq_iff (url.scheme u) "wss",
    eq_iff (url.scheme u) "http",
    eq_iff "http" "wss",
  )

  scheme_only :
      (u : U)
      → (with_socket_scheme u ≡ u)
        ⊎ (with_socket_scheme u ≡ url.set_scheme "wss" u)
        ⊎ (with_socket_scheme u ≡ url.set_scheme "ws" u)
  unfolding with_socket_scheme
  scheme_only u = ground arith

  -- When setting a URL's scheme sets it, the websocket URL of a server that parses is the server
  -- itself, or the server with its scheme set to wss or to ws and nothing else changed, with
  -- /api/websocket joined. Its scheme is wss when the server's is https or wss, and ws otherwise:
  -- a secured server is never spoken to over an unsecured socket.
  pub websocket_is_as_secure :
      (host : String) (u : U)
      → ((s : String) (v : U) → url.scheme (url.set_scheme s v) ≡ s)
      → url.parse host ≡ some u
      → (v : U) × (generate_websocket_url host
            ≡ some (url.print (url.join_path ("/api/websocket" ∷ []) v))
          × ((v ≡ u) ⊎ (v ≡ url.set_scheme "wss" u) ⊎ (v ≡ url.set_scheme "ws" u))
          × url.scheme v
            ≡ (if url.scheme u == "https" || url.scheme u == "wss" then "wss" else "ws"))
  unfolding generate_websocket_url
  websocket_is_as_secure host u law e =
      (with_socket_scheme u, (rw e refl, scheme_only u, scheme_set u law))
