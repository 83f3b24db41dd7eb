-- ===== src/Client/Outcomes.antt =====
-- What ProcessSensor returns for a sensor that is not disabled, and what it leaves behind.
use go_hass_agent.Prelude.{
  String, ◌≡◌, refl, ◌∙◌, ◌≢◌, Bool, true, false, Option, none, some, List, [], ◌∷◌, arith,
  if◌then◌else◌, ◌==◌,
}
use go_hass_agent.Sensor.{
  Details, LocationRequest, State, nil, value, success, ApiError, ResponseStatus,
}
use go_hass_agent.Sensor.Request.{Request, as_location, new_request}
use go_hass_agent.Tracker.{get, add}
use go_hass_agent.Tracker.Contents.{ready, get-add-ready}
use go_hass_agent.Registry.{RegistryApi}
use go_hass_agent.Client.{
  Server, World, Sent, StateUpdateResponse, ok, err, Endpoint, send, is_error, post,
}
use go_hass_agent.Client.Traffic.{data_request}
use go_hass_agent.Client.History.{client-send}
use go_hass_agent.Client.Process.{
  handle_sensor_update, handle_location_update, handle_registration, is_disabled, dispatch,
  process_sensor, join, ProcessError, warned, take_updates, take_registration, registration_outcome,
  Warning, apply_updates,
}

-- Every error but the warnings that follow a request which Home Assistant accepted.
abbrev pub IsRefusal : Option ProcessError → Type 0
IsRefusal none = ⊥
IsRefusal (some (warned ws)) = ⊥
IsRefusal _ = Unit {0}

join_no_refusal : (ws : List Warning) → IsRefusal (join ws) → ⊥
unfolding join
join_no_refusal [] h = h
join_no_refusal (w ∷ ws) h = h

module _ {V R : Type 0} (api : RegistryApi R) (valid : Request V → Bool) where
  module _ (server : Server V) (d : Details V) where
    process_sensor-dispatch :
        (w : World V R)
        → api.is_disabled d.id w.registry ≡ false
        → process_sensor api valid server d w ≡ dispatch api valid server d d.state w
    unfolding process_sensor is_disabled
    process_sensor-dispatch w h = rw h

    location_fails :
        (w : World V R) (l : LocationRequest V) (s : State V)
        → d.state ≡ State.location l
        → s ≡ State.location l
        → ((dispatch api valid server d s w).0 ≢ none)
          × ((dispatch api valid server d s w).1.client ≡ w.client)
    unfolding dispatch handle_location_update send new_request
    location_fails w l (State.location k) is e = ground arith
    location_fails w l nil is e = cc
    location_fails w l (value v) is e = cc

    -- A sensor whose state is a location and that is not disabled always ends in an error,
    -- whatever Home Assistant answers, and leaves the registry and the tracker as they are: the
    -- response's `Updated` returns itself as the error, on success too.
    pub location_always_fails :
        (w : World V R) (l : LocationRequest V)
        → d.state ≡ State.location l
        → api.is_disabled d.id w.registry ≡ false
        → ((process_sensor api valid server d w).0 ≢ none)
          × ((process_sensor api valid server d w).1.client ≡ w.client)
    location_always_fails w l is h =
        rw (process_sensor-dispatch w h) (location_fails w l d.state is is)

    handle_location_update_client :
        (w : World V R) → (handle_location_update api valid server d w).1.client ≡ w.client
    unfolding handle_location_update send
    handle_location_update_client w = ground arith

    module _ (w : World V R) (e : Endpoint) (at : w.endpoint ≡ some e)
        (plain : as_location d.state ≡ none) (enabled : api.is_disabled d.id w.registry ≡ false)
        (unknown : api.is_registered d.id w.registry ≡ false)
        (accepted : valid (data_request d nil false) ≡ true)
        (fine : is_error (server.register (data_request d nil false)).status ≡ false)
        (succeeds : (server.register (data_request d nil false)).result.is_success ≡ true) where
      dispatch_new :
          (s : State V)
          → as_location s ≡ none
          → (dispatch api valid server d s w).1.client ≡ record w.client {
            registry = (api.set_registered d.id true w.registry).1;
            tracker = (add d w.tracker).1;
          }
      unfolding dispatch handle_registration send success as_location new_request
      dispatch_new (State.location l) h = cc
      dispatch_new nil h = ground arith
      dispatch_new (value v) h = ground arith

      process_new : (process_sensor api valid server d w).1.client ≡ record w.client {
        registry = (api.set_registered d.id true w.registry).1;
        tracker = (add d w.tracker).1;
      }
      process_new = rw (process_sensor-dispatch w enabled) (dispatch_new d.state plain)

      -- A sensor that is new to the registry, not disabled and no location, whose registration
      -- request is valid and is answered with success: it is registered afterwards, every other
      -- sensor is registered as before, no sensor's disabled flag changes, and the tracker holds
      -- it unless it was reset. This holds also where the registry cannot be written to disk.
      pub process_sensor_registers :
          ((j : String)
            → (api.is_registered j (process_sensor api valid server d w).1.registry
                ≡ (if d.id == j then true else api.is_registered j w.registry))
              × (api.is_disabled j (process_sensor api valid server d w).1.registry
                  ≡ api.is_disabled j w.registry))
          × (get d.id (process_sensor api valid server d w).1.tracker
              ≡ (if ready w.tracker then some d else none))
      process_sensor_registers = rw process_new (
        λ j. (
          api.registered_after_register d.id j true w.registry,
          api.disabled_after_register d.id j true w.registry,
        ),
        get-add-ready d w.tracker,
      )

    client-take_updates :
        (r : Sent StateUpdateResponse) (w : World V R)
        → IsRefusal (take_updates api valid d r w).0
        → (take_updates api valid d r w).1.client ≡ w.client
    unfolding take_updates
    client-take_updates (err e) w h = refl
    client-take_updates (ok none) w h = refl
    client-take_updates (ok (some m)) w h =
        absurd (join_no_refusal (apply_updates api valid d m w.client).0 h)

    client-registration_outcome :
        (r : Bool × Option (Option ApiError)) (w : World V R)
        → IsRefusal (registration_outcome api valid d r w).0
        → (registration_outcome api valid d r w).1.client ≡ w.client
    unfolding registration_outcome
    client-registration_outcome (true, e) w h = absurd (join_no_refusal _ h)
    client-registration_outcome (false, none) w h = refl
    client-registration_outcome (false, some e) w h = refl

    client-take_registration :
        (r : Sent ResponseStatus) (w : World V R)
        → IsRefusal (take_registration api valid d r w).0
        → (take_registration api valid d r w).1.client ≡ w.client
    unfolding take_registration
    client-take_registration (err e) w h = refl
    client-take_registration (ok r) w h = client-registration_outcome (success r) w h

    client-handle_sensor_update :
        (w : World V R)
        → IsRefusal (handle_sensor_update api valid server d w).0
        → (handle_sensor_update api valid server d w).1.client ≡ w.client
    unfolding handle_sensor_update new_request
    client-handle_sensor_update w h =
        let req : Request V = data_request d nil true in
        let reply = server.update req in
        let (r, w') = send valid (post req) reply w in
        client-take_updates r w' h ∙ client-send api valid (post req) reply w

    client-handle_registration :
        (w : World V R)
        → IsRefusal (handle_registration api valid server d w).0
        → (handle_registration api valid server d w).1.client ≡ w.client
    unfolding handle_registration new_request
    client-handle_registration w h =
        let req : Request V = data_request d nil false in
        let reply = server.register req in
        let (r, w') = send valid (post req) reply w in
        client-take_registration r w' h ∙ client-send api valid (post req) reply w

    client-dispatch :
        (s : State V) (w : World V R)
        → IsRefusal (dispatch api valid server d s w).0
        → (dispatch api valid server d s w).1.client ≡ w.client
    unfolding dispatch
    client-dispatch (State.location l) w h = handle_location_update_client w
    client-dispatch nil w h =
        ground (arith, client-handle_sensor_update w, client-handle_registration w)
    client-dispatch (value v) w h =
        ground (arith, client-handle_sensor_update w, client-handle_registration w)

    -- If a sensor that is not disabled ends in an error other than the warnings that follow a
    -- request which Home Assistant accepted (the request cannot be made or sent, the response has
    -- an error status or is empty, the registration is refused), then the registry, the tracker
    -- and the endpoint are as before.
    pub process_sensor_refused :
        (w : World V R)
        → api.is_disabled d.id w.registry ≡ false
        → IsRefusal (process_sensor api valid server d w).0
        → (process_sensor api valid server d w).1.client ≡ w.client
    process_sensor_refused w enabled h =
        let e = process_sensor-dispatch w enabled in rw e (client-dispatch d.state w (rw e at h))
