-- ===== src/Client/Process.antt =====
-- internal/hass/client.go: ProcessSensor and its handlers. A handler's result is its error,
-- `none` for nil, and the world that it leaves. Logging is left out.
use go_hass_agent.Prelude.{
  String, Bool, true, false, not, Option, none, some, List, [], ◌∷◌, ◌++◌, if◌then◌else◌,
}
use go_hass_agent.Prelude.Dict.{Dict}
use go_hass_agent.Sensor.{Details, State, ApiError, ResponseStatus, UpdateResponseStatus, success}
use go_hass_agent.Sensor.Request.{
  Request, RequestError, RequestResult, request_type_register, request_type_update,
  request_type_location, new_request, as_location,
}
use go_hass_agent.Sensor.Request
use go_hass_agent.Tracker.{TrackerError, add}
use go_hass_agent.Registry.{RegistryError, RegistryApi}
use go_hass_agent.Client.{
  Client, Config, Server, StateUpdateResponse, get_config, post, SendError, Sent, ok, err, World,
  send, is_entity_disabled,
}

pub data Warning : Type 0 where
  update_failed : Option ApiError → Warning
  reg_disable_failed : RegistryError → Warning
  reg_add_failed : RegistryError → Warning
  trk_update_failed : TrackerError → Warning

pub data ProcessError : Type 0 where
  bad_request : RequestError → ProcessError
  send_failed : SendError → ProcessError
  location_failed state_update_unknown : ProcessError
  registration_failed : Option ApiError → ProcessError
  warned : List Warning → ProcessError

-- What errors.Join makes of the warnings: nil if there are none.
unfoldable pub join : List Warning → Option ProcessError
join [] = none
join (w ∷ ws) = some (warned (w ∷ ws))

unfoldable pub failed_status : Bool × Option (Option ApiError) → List Warning
failed_status (true, e) = []
failed_status (false, none) = []
failed_status (false, some e) = update_failed e ∷ []

unfoldable pub warn : {E : Type 0} → (E → Warning) → Option E → List Warning
warn f none = []
warn f (some e) = f e ∷ []

-- a != b
unfoldable pub differ : Bool → Bool → Bool
differ true b = not b
differ false b = b

module _ {V R : Type 0} (api : RegistryApi R) (valid : Request V → Bool) where
  abbrev pub Outcome : Type 0
  Outcome = Option ProcessError × World V R

  -- LocationResponse.Updated returns its receiver, a pointer that is not nil, as the error.
  location_result : Sent (Unit {0}) → Option ProcessError
  location_result (ok r) = some location_failed
  location_result (err e) = some (send_failed e)

  send_location : Server V → RequestResult V → World V R → Outcome
  unfolding location_result
  send_location server (Request.err e) w = (some (bad_request e), w)
  send_location server (Request.ok req) w =
      let (r, w') = send valid (post req) (server.location req) w in (location_result r, w')

  -- `handleLocationUpdate`
  unfoldable pub handle_location_update : Server V → Details V → World V R → Outcome
  unfolding send_location
  handle_location_update server details w =
      send_location server (new_request request_type_location details) w

  -- One round of the loop over the response: the registry follows Home Assistant, and the
  -- sensor goes into the tracker.
  unfoldable pub update_registry : String → UpdateResponseStatus → R → List Warning × R
  unfolding differ warn
  update_registry id update r =
      if differ (api.is_disabled id r) update.is_disabled
      then (let (e, r') = api.set_disabled id update.is_disabled r in
          (warn reg_disable_failed e, r'))
      else ([], r)

  unfoldable pub apply_update :
      Details V → String → UpdateResponseStatus → Client V R → List Warning × Client V R
  unfolding update_registry failed_status warn
  apply_update details id update c =
      let (ws, r) = update_registry id update c.registry in
      let (e, t) = add details c.tracker in
      (
        failed_status (success update.status) ++ (ws ++ warn trk_update_failed e),
        record c { registry = r; tracker = t },
      )

  unfoldable pub apply_updates :
      Details V → Dict UpdateResponseStatus → Client V R → List Warning × Client V R
  unfolding apply_update
  apply_updates details [] c = ([], c)
  apply_updates details ((id, update) ∷ rest) c =
      let (ws, c') = apply_update details id update c in
      let (vs, c'') = apply_updates details rest c' in (ws ++ vs, c'')

  -- What follows the response to an update.
  unfoldable pub take_updates : Details V → Sent StateUpdateResponse → World V R → Outcome
  unfolding join apply_updates
  take_updates details (err e) w = (some (send_failed e), w)
  take_updates details (ok none) w = (some state_update_unknown, w)
  take_updates details (ok (some response)) w =
      let (ws, c) = apply_updates details response w.client in (join ws, record w { client = c })

  send_update : Server V → Details V → RequestResult V → World V R → Outcome
  unfolding take_updates
  send_update server details (Request.err e) w = (some (bad_request e), w)
  send_update server details (Request.ok req) w =
      let (r, w') = send valid (post req) (server.update req) w in take_updates details r w'

  -- `handleSensorUpdate`
  unfoldable pub handle_sensor_update : Server V → Details V → World V R → Outcome
  unfolding send_update
  handle_sensor_update server details w =
      send_update server details (new_request request_type_update details) w

  -- What follows a registration that succeeded.
  unfoldable pub record_registration : Details V → World V R → Outcome
  unfolding join warn
  record_registration details w =
      let (e, r) = api.set_registered details.id true w.registry in
      let (e', t) = add details w.tracker in
      (
        join (warn reg_add_failed e ++ warn trk_update_failed e'),
        record w { client = record w.client { registry = r; tracker = t } },
      )

  unfoldable pub registration_outcome :
      Details V → Bool × Option (Option ApiError) → World V R → Outcome
  unfolding record_registration
  registration_outcome details (true, e) w = record_registration details w
  registration_outcome details (false, none) w = (some (registration_failed none), w)
  registration_outcome details (false, some e) w = (some (registration_failed e), w)

  unfoldable pub take_registration : Details V → Sent ResponseStatus → World V R → Outcome
  unfolding registration_outcome
  take_registration details (err e) w = (some (send_failed e), w)
  take_registration details (ok response) w = registration_outcome details (success response) w

  send_registration : Server V → Details V → RequestResult V → World V R → Outcome
  unfolding take_registration
  send_registration server details (Request.err e) w = (some (bad_request e), w)
  send_registration server details (Request.ok req) w =
      let (r, w') = send valid (post req) (server.register req) w in take_registration details r w'

  -- `handleRegistration`
  unfoldable pub handle_registration : Server V → Details V → World V R → Outcome
  unfolding send_registration
  handle_registration server details w =
      send_registration server details (new_request request_type_register details) w

  disabled_status : Option Bool → Bool
  disabled_status none = true
  disabled_status (some b) = b

  disabled_in_config : String → Sent Config → Bool
  unfolding disabled_status
  disabled_in_config id (err e) = true
  disabled_in_config id (ok config) = disabled_status (is_entity_disabled id config)

  -- `isDisabledInHA`
  unfoldable pub is_disabled_in_ha : Server V → Details V → World V R → Bool × World V R
  unfolding disabled_in_config
  is_disabled_in_ha server details w =
      let (r, w') = send valid get_config server.config w in (disabled_in_config details.id r, w')

  enabled_again : Option RegistryError × R → World V R → Bool × World V R
  enabled_again (none, r) w = (false, record w { client = record w.client { registry = r } })
  enabled_again (some e, r) w = (true, record w { client = record w.client { registry = r } })

  re_enable : Details V → Bool × World V R → Bool × World V R
  unfolding enabled_again
  re_enable details (true, w) = (true, w)
  re_enable details (false, w) = enabled_again (api.set_disabled details.id false w.registry) w

  -- `isDisabled`
  unfoldable pub is_disabled : Server V → Details V → World V R → Bool × World V R
  unfolding re_enable is_disabled_in_ha
  is_disabled server details w =
      if api.is_disabled details.id w.registry
      then re_enable details (is_disabled_in_ha server details w)
      else (false, w)

  handle_data : Server V → Details V → World V R → Outcome
  handle_data server details w =
      if api.is_registered details.id w.registry
      then handle_sensor_update server details w
      else handle_registration server details w

  -- The type switch on the sensor's state.
  unfoldable pub dispatch : Server V → Details V → State V → World V R → Outcome
  unfolding handle_data
  dispatch server details (State.location l) w = handle_location_update server details w
  dispatch server details State.nil w = handle_data server details w
  dispatch server details (State.value v) w = handle_data server details w

  process_enabled : Server V → Details V → Bool × World V R → Outcome
  unfolding dispatch
  process_enabled server details (true, w) = (none, w)
  process_enabled server details (false, w) = dispatch server details details.state w

  -- `ProcessSensor`
  unfoldable pub process_sensor : Server V → Details V → World V R → Outcome
  unfolding process_enabled
  process_sensor server details w = process_enabled server details (is_disabled server details w)
