-- ===== src/Client/Traffic.antt =====
-- Which requests reach Home Assistant when the client processes a sensor.
use mathlib.Core.List.{append-nil, append_assoc}
use go_hass_agent.Prelude.{
  String, ◌≡◌, refl, Bool, true, false, not, ◌&&◌, Option, none, some, List, [], ◌∷◌, ◌++◌, arith,
  if◌then◌else◌,
}
use go_hass_agent.Sensor.{Details, LocationRequest, State, nil, value}
use go_hass_agent.Sensor.Request.{
  Request, Body, registration, create_state_update_request, create_registration_request,
  new_request,
}
use go_hass_agent.Registry.{RegistryApi}
use go_hass_agent.Client.{
  Server, Call, get_config, post, World, Endpoint, send, is_entity_disabled, is_error,
}
use go_hass_agent.Client.Process.{
  dispatch, handle_location_update, handle_sensor_update, handle_registration, is_disabled,
  process_sensor,
}

-- Home Assistant answers, and says that the entity is not disabled.
abbrev says_enabled : Option Bool → Bool
says_enabled (some false) = true
says_enabled _ = false

abbrev pub lifted : {V : Type 0} → Server V → String → Bool
lifted server id =
    not (is_error server.config.status) && says_enabled (is_entity_disabled id server.config.result)

abbrev is_none : {E : Type 0} → Option E → Bool
is_none none = true
is_none (some e) = false

module _ {V : Type 0} where
  -- The one request that carries a sensor's data.
  abbrev pub data_request : Details V → State V → Bool → Request V
  data_request d (State.location l) known = record {
    body = Body.location l;
    request_type = "update_location";
  }
  data_request d _ true = record {
    body = Body.update (create_state_update_request d);
    request_type = "update_sensor_states";
  }
  data_request d _ false = record {
    body = registration (create_registration_request d);
    request_type = "register_sensor";
  }

module _ {V R : Type 0} (api : RegistryApi R) (valid : Request V → Bool) where
  abbrev pub if_valid : Request V → List (Call V)
  if_valid req = if valid req then post req ∷ [] else []

  abbrev pub blocked : Server V → Details V → R → Bool
  blocked server d r =
      api.is_disabled d.id r
      && not (lifted server d.id && is_none (api.set_disabled d.id false r).0)

  abbrev pub probe : Details V → R → List (Call V)
  probe d r = if api.is_disabled d.id r then get_config ∷ [] else []

  abbrev pub payload : Server V → Details V → R → List (Call V)
  payload server d r =
      let req = data_request d d.state (api.is_registered d.id r) in
      if blocked server d r then [] else if_valid req

  module _ (server : Server V) (d : Details V) (w : World V R) (e : Endpoint)
      (at : w.endpoint ≡ some e) where
    sent-handle_sensor_update :
        (handle_sensor_update api valid server d w).1.sent
        ≡ w.sent ++ if_valid (data_request d nil true)
    unfolding handle_sensor_update send new_request
    sent-handle_sensor_update = ground (arith, append-nil w.sent)

    sent-handle_registration :
        (handle_registration api valid server d w).1.sent
        ≡ w.sent ++ if_valid (data_request d nil false)
    unfolding handle_registration send new_request
    sent-handle_registration = ground (arith, append-nil w.sent)

    sent-handle_location_update :
        (l : LocationRequest V)
        → d.state ≡ State.location l
        → (handle_location_update api valid server d w).1.sent
          ≡ w.sent ++ if_valid (data_request d (State.location l) true)
    unfolding handle_location_update send new_request
    sent-handle_location_update l h = ground (arith, append-nil w.sent)

    is_disabled_lem :
        ((is_disabled api valid server d w).0 ≡ blocked server d w.registry)
        × ((is_disabled api valid server d w).1.sent ≡ w.sent ++ probe d w.registry)
        × ((is_disabled api valid server d w).1.endpoint ≡ some e)
        × (api.is_registered d.id (is_disabled api valid server d w).1.registry
            ≡ api.is_registered d.id w.registry)
    unfolding is_disabled send
    is_disabled_lem =
        ground (arith, append-nil w.sent, api.registered_after_disable d.id d.id false w.registry)

    sent-dispatch :
        (s : State V)
        → d.state ≡ s
        → (dispatch api valid server d s w).1.sent
          ≡ w.sent ++ if_valid (data_request d s (api.is_registered d.id w.registry))
    unfolding dispatch
    sent-dispatch (State.location l) h = sent-handle_location_update l h
    sent-dispatch nil h = ground (arith, sent-handle_sensor_update, sent-handle_registration)
    sent-dispatch (value v) h = ground (arith, sent-handle_sensor_update, sent-handle_registration)

  -- With an endpoint set, processing a sensor sends exactly the following, in this order. First,
  -- if the registry has the sensor as disabled, one request for the configuration. Then, unless
  -- the sensor stays disabled (Home Assistant does not answer with a configuration in which it is
  -- enabled, or the registry cannot be written), the one request that carries its data, if the
  -- validator accepts it: a location update for a location, else a state update if the registry
  -- has the sensor as registered, and a registration if not.
  pub sent-process_sensor :
      (server : Server V) (d : Details V) (w : World V R) (e : Endpoint)
      → w.endpoint ≡ some e
      → (process_sensor api valid server d w).1.sent
        ≡ w.sent ++ (probe d w.registry ++ payload server d w.registry)
  unfolding process_sensor
  sent-process_sensor server d w e at =
      let w' = (is_disabled api valid server d w).1 in
      let facts = is_disabled_lem server d w e at in
      ground (
        arith,
        append-nil (probe d w.registry),
        append_assoc w.sent (probe d w.registry) (payload server d w.registry),
        facts,
        sent-dispatch server d w' e facts.2 d.state refl,
      )
