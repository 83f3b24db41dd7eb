-- ===== src/Client.antt =====
-- internal/hass/client.go and config.go: the client's state, `send`, and what it asks about Home
-- Assistant's configuration. One call of ProcessSensor meets one `Server`: what the HTTP library
-- would answer to each request at that time.
pub mod Process
pub mod Traffic
pub mod History
pub mod Outcomes
pub mod Sync
use go_hass_agent.Prelude.{
  ℕ, String, Bool, true, false, Option, none, some, List, [], ◌∷◌, ◌++◌, nat_eq, ltb, if◌then◌else◌,
}
use go_hass_agent.Prelude.Dict.{Dict, lookup}
use go_hass_agent.Sensor.{Details, Code, number, ApiError, ResponseStatus, UpdateResponseStatus}
use go_hass_agent.Sensor.Request.{Request}
use go_hass_agent.Tracker.{Tracker, get, sensor_list}

-- A value of an entity's configuration: a Go bool, or something else.
pub data Setting : Type 0 where
  bool : Bool → Setting
  other : Setting

-- Config of config.go, with the fields that the program reads. `none` is the nil map.
pub record Config : Type 0 where
  pub entities : Option (Dict (Dict Setting))
  pub version : String

-- The response's status code and the decoded result. The library leaves the zero value there
-- where it decodes nothing, and gives status 0 where no response arrived.
pub record Reply (T : Type 0) : Type 0 where
  pub status : ℕ
  pub status_text : String
  pub result : T

-- StateUpdateResponse: nil, or the entries in the order in which the range visits them
abbrev pub StateUpdateResponse : Type 0
StateUpdateResponse = Option (Dict UpdateResponseStatus)

pub record Server (V : Type 0) : Type 0 where
  pub config : Reply Config
  pub update : Request V → Reply StateUpdateResponse
  pub register : Request V → Reply ResponseStatus
  pub location : Request V → Reply (Unit {0})

pub record Endpoint : Type 0 where
  pub url : String
  pub timeout : ℕ

pub record Client (V R : Type 0) : Type 0 where
  pub endpoint : Option Endpoint
  pub tracker : Tracker V
  pub registry : R

-- The requests that reach Home Assistant.
pub data Call (V : Type 0) : Type 0 where
  get_config : Call V
  post : Request V → Call V

pub data SendError : Type 0 where
  invalid_client validation_failed : SendError
  api : ApiError → SendError

pub data Sent (T : Type 0) : Type 0 where
  ok : T → Sent T
  err : SendError → Sent T

-- The client, and every request sent so far.
pub record World (V R : Type 0) : Type 0 where
  pub client : Client V R
  pub open client use *
  pub sent : List (Call V)

-- 30 seconds
abbrev pub default_timeout : ℕ
default_timeout = 30

-- responseObj.IsError()
abbrev pub is_error : ℕ → Bool
is_error status = ltb 399 status

unfoldable pub answer : {T : Type 0} → Reply T → Sent T
answer r =
    if is_error r.status
    then err (api (record { code = number r.status; message = r.status_text }))
    else ok r.result

-- The validator library's verdict on a request's body, `valid`, is a parameter; a configuration
-- request has no Validate method.
unfoldable pub passes : {V : Type 0} → (Request V → Bool) → Call V → Bool
passes valid get_config = true
passes valid (post r) = valid r

version_of : Sent Config → String
version_of (ok config) = config.version
version_of (err e) = "Unknown"

module _ {V R : Type 0} where
  -- `NewClient`
  unfoldable pub new_client : Tracker V → R → Client V R
  new_client trk reg = record { endpoint = none; tracker = trk; registry = reg }

  -- `Endpoint`, with the timeout in seconds
  unfoldable pub set_endpoint : String → ℕ → Client V R → Client V R
  set_endpoint url timeout c =
      let t = if nat_eq timeout 0 then default_timeout else timeout in
      record c { endpoint = some (record { url = url; timeout = t }) }

  -- `GetSensor`: `none` is the wrapped ErrSensorNotFound.
  unfoldable pub get_sensor : String → Client V R → Option (Details V)
  get_sensor id c = get id c.tracker

  -- `SensorList`
  unfoldable pub list_sensors : Client V R → Option (List String)
  list_sensors c = sensor_list c.tracker

  module _ (valid : Request V → Bool) where
    send_to : {T : Type 0} → Option Endpoint → Call V → Reply T → World V R → Sent T × World V R
    unfolding passes answer
    send_to none call r w = (err invalid_client, w)
    send_to (some e) call r w =
        if passes valid call
        then (answer r, record w { sent = w.sent ++ call ∷ [] })
        else (err validation_failed, w)

    -- `send`: the errors of the HTTP library are dropped, so that no response reads as success.
    unfoldable pub send : {T : Type 0} → Call V → Reply T → World V R → Sent T × World V R
    unfolding send_to
    send call r w = send_to w.endpoint call r w

    -- `HassVersion`
    unfoldable pub hass_version : Server V → World V R → String × World V R
    unfolding version_of
    hass_version server w = let (r, w') = send get_config server.config w in (version_of r, w')

-- v.(bool), and false where the value is no bool
setting_bool : Setting → Bool
setting_bool (bool b) = b
setting_bool other = false

disabled_setting : Option Setting → Bool
unfolding setting_bool
disabled_setting none = false
disabled_setting (some s) = setting_bool s

-- c.Entities[entity]["disabled"]: an unknown entity reads as the nil map.
entity_setting : Option (Dict Setting) → Option Setting
entity_setting none = none
entity_setting (some m) = lookup "disabled" m

entity_disabled_in : String → Option (Dict (Dict Setting)) → Option Bool
unfolding disabled_setting entity_setting
entity_disabled_in id none = none
entity_disabled_in id (some m) = some (disabled_setting (entity_setting (lookup id m)))

-- `IsEntityDisabled`: `none` is ErrInvalidConfig.
unfoldable pub is_entity_disabled : String → Config → Option Bool
unfolding entity_disabled_in
is_entity_disabled id c = entity_disabled_in id c.entities
