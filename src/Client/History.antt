-- ===== src/Client/History.antt =====
-- Histories of sensors to process: a sensor that is registered stays so, and is not registered again.
use go_hass_agent.Prelude.{
  ℕ, String, ◌≡◌, refl, ap, ◌∙◌, ◌+◌, Bool, true, false, none, some, List, [], ◌∷◌, ◌++◌, arith,
  if◌then◌else◌, eq_iff, ◌==◌,
}
use go_hass_agent.Prelude.Dict.{Dict}
use go_hass_agent.Sensor.{Details, State, nil, value, UpdateResponseStatus}
use go_hass_agent.Sensor.Request.{
  Request, Body, registration, create_registration_request, new_request,
}
use go_hass_agent.Registry.{RegistryApi}
use go_hass_agent.Client.{
  Client, Server, Call, post, get_config, World, Sent, StateUpdateResponse, ok, err, Reply,
  Endpoint, send,
}
use go_hass_agent.Client.Traffic.{data_request, sent-process_sensor, payload, probe, if_valid}
use go_hass_agent.Client.Sync.{registered-apply_updates}
use go_hass_agent.Client.Process.{
  apply_update, apply_updates, handle_sensor_update, handle_location_update, handle_registration,
  is_disabled, dispatch, process_sensor, take_updates,
}

registers : {V : Type 0} → String → Body V → ℕ
registers id (registration r) = if r.update.unique_id == id then 1 else 0
registers id (Body.update r) = 0
registers id (Body.location r) = 0

-- The number of registrations of `id` among the requests.
unfoldable pub registrations : {V : Type 0} → String → List (Call V) → ℕ
unfolding registers
registrations id [] = 0
registrations id (get_config ∷ cs) = registrations id cs
registrations id (post r ∷ cs) = registers id r.body + registrations id cs

registrations-append :
    {V : Type 0} (id : String) (cs ds : List (Call V))
    → registrations id (cs ++ ds) ≡ registrations id cs + registrations id ds
unfolding registrations
registrations-append id [] ds = omega arith
registrations-append id (get_config ∷ cs) ds = registrations-append id cs ds
registrations-append id (post r ∷ cs) ds = omega (arith, registrations-append id cs ds)

module _ {V R : Type 0} (api : RegistryApi R) (valid : Request V → Bool) where
  -- A registration, once made, is kept.
  abbrev Keeps : String → World V R → World V R → Type 0
  Keeps j w w' = api.is_registered j w.registry ≡ true → api.is_registered j w'.registry ≡ true

  pub client-send :
      {T : Type 0} (call : Call V) (r : Reply T) (w : World V R)
      → (send valid call r w).1.client ≡ w.client
  unfolding send
  client-send call r w = ground arith

  Keeps-take_updates :
      (j : String) (d : Details V) (r : Sent _) (w : World V R)
      → Keeps j w (take_updates api valid d r w).1
  unfolding take_updates
  Keeps-take_updates j d (err e) w h = h
  Keeps-take_updates j d (ok none) w h = h
  Keeps-take_updates j d (ok (some m)) w h = registered-apply_updates api valid j d m w.client ∙ h

  module _ (j : String) (server : Server V) (d : Details V) (w : World V R) where
    Keeps-handle_location_update : Keeps j w (handle_location_update api valid server d w).1
    unfolding handle_location_update send
    Keeps-handle_location_update h = ground arith

    Keeps-handle_sensor_update : Keeps j w (handle_sensor_update api valid server d w).1
    unfolding handle_sensor_update send new_request
    Keeps-handle_sensor_update h =
        let req : Request V = data_request d nil true in
        let reply = server.update req in
        let (r, w') = send valid (post req) reply w in
        Keeps-take_updates j d r w' (
          ap (λ (c : Client V R). api.is_registered j c.registry) (client-send (post req) reply w)
          ∙ h)

    Keeps-handle_registration : Keeps j w (handle_registration api valid server d w).1
    unfolding handle_registration send
    Keeps-handle_registration h =
        ground (arith, api.registered_after_register d.id j true w.registry)

    Keeps-is_disabled : Keeps j w (is_disabled api valid server d w).1
    unfolding is_disabled send
    Keeps-is_disabled h = ground (arith, api.registered_after_disable d.id j false w.registry)

  Keeps-dispatch :
      (j : String) (server : Server V) (d : Details V) (s : State V) (w : World V R)
      → Keeps j w (dispatch api valid server d s w).1
  unfolding dispatch
  Keeps-dispatch j server d (State.location l) w h = Keeps-handle_location_update j server d w h
  Keeps-dispatch j server d nil w h =
      ground
        (arith, Keeps-handle_sensor_update j server d w, Keeps-handle_registration j server d w)
  Keeps-dispatch j server d (value v) w h =
      ground
        (arith, Keeps-handle_sensor_update j server d w, Keeps-handle_registration j server d w)

  Keeps-process_sensor :
      (j : String) (server : Server V) (d : Details V) (w : World V R)
      → Keeps j w (process_sensor api valid server d w).1
  unfolding process_sensor
  Keeps-process_sensor j server d w h =
      let w' = (is_disabled api valid server d w).1 in
      ground (arith, Keeps-is_disabled j server d w, Keeps-dispatch j server d d.state w')

  -- A history: each sensor meets the server of its time.
  pub process_all : List (Server V × Details V) → World V R → World V R
  process_all [] w = w
  process_all ((server, d) ∷ rest) w = process_all rest (process_sensor api valid server d w).1

  registrations-probe :
      (j : String) (d : Details V) (r : R) → registrations j (probe api valid d r) ≡ 0
  unfolding registrations
  registrations-probe j d r = ground arith

  registrations-data_request :
      (j : String) (d : Details V) (s : State V) (known : Bool)
      → (d.id ≡ j → known ≡ true)
      → registrations j (if_valid api valid (data_request d s known)) ≡ 0
  unfolding registrations create_registration_request
  registrations-data_request j d (State.location l) known h = ground arith
  registrations-data_request j d nil true h = ground arith
  registrations-data_request j d nil false h = ground (arith, eq_iff d.id j)
  registrations-data_request j d (value v) true h = ground arith
  registrations-data_request j d (value v) false h = ground (arith, eq_iff d.id j)

  registrations-payload :
      (j : String) (server : Server V) (d : Details V) (r : R)
      → api.is_registered j r ≡ true
      → registrations j (payload api valid server d r) ≡ 0
  unfolding registrations
  registrations-payload j server d r h = ground (
    arith,
    registrations-data_request j d d.state (api.is_registered d.id r)
        (λ e. ap (λ (k : String). api.is_registered k r) e ∙ h),
  )

  endpoint-apply_updates :
      (d : Details V) (m : Dict UpdateResponseStatus) (c : Client V R)
      → (apply_updates api valid d m c).1.endpoint ≡ c.endpoint
  unfolding apply_updates
  endpoint-apply_updates d [] c = refl
  endpoint-apply_updates d ((id, u) ∷ m) c =
      endpoint-apply_updates d m (apply_update api valid d id u c).1

  endpoint-take_updates :
      (d : Details V) (r : Sent StateUpdateResponse) (w : World V R)
      → (take_updates api valid d r w).1.endpoint ≡ w.endpoint
  unfolding take_updates
  endpoint-take_updates d (err e) w = refl
  endpoint-take_updates d (ok none) w = refl
  endpoint-take_updates d (ok (some m)) w = endpoint-apply_updates d m w.client

  module _ (server : Server V) (d : Details V) where
    endpoint-handle_sensor_update :
        (w : World V R) → (handle_sensor_update api valid server d w).1.endpoint ≡ w.endpoint
    unfolding handle_sensor_update new_request
    endpoint-handle_sensor_update w =
        let req : Request V = data_request d nil true in
        let reply = server.update req in
        let (r, w') = send valid (post req) reply w in
        endpoint-take_updates d r w'
        ∙ ap (λ (c : Client V R). c.endpoint) (client-send (post req) reply w)

    endpoint-dispatch :
        (s : State V) (w : World V R) → (dispatch api valid server d s w).1.endpoint ≡ w.endpoint
    unfolding dispatch handle_registration handle_location_update send
    endpoint-dispatch (State.location l) w = ground arith
    endpoint-dispatch nil w = ground (arith, endpoint-handle_sensor_update w)
    endpoint-dispatch (value v) w = ground (arith, endpoint-handle_sensor_update w)

    endpoint-is_disabled :
        (w : World V R) → (is_disabled api valid server d w).1.endpoint ≡ w.endpoint
    unfolding is_disabled send
    endpoint-is_disabled w = ground arith

    endpoint-process_sensor :
        (w : World V R) → (process_sensor api valid server d w).1.endpoint ≡ w.endpoint
    unfolding process_sensor
    endpoint-process_sensor w =
        let w' = (is_disabled api valid server d w).1 in
        ground (arith, endpoint-is_disabled w, endpoint-dispatch d.state w')

  -- Once the registry has a sensor as registered, no history of sensors to process, whatever Home
  -- Assistant answers and whether or not the registry can be written, sends another registration
  -- for its id, and the registry keeps it as registered. The client's endpoint is assumed to be
  -- set.
  pub process_all_registers_once :
      (j : String) (ps : List (Server V × Details V)) (w : World V R) (e : Endpoint)
      → w.endpoint ≡ some e
      → api.is_registered j w.registry ≡ true
      → (registrations j (process_all ps w).sent ≡ registrations j w.sent)
        × (api.is_registered j (process_all ps w).registry ≡ true)
  unfolding process_all
  process_all_registers_once j [] w e at h = (refl, h)
  process_all_registers_once j ((server, d) ∷ ps) w e at h =
      let w' = (process_sensor api valid server d w).1 in
      let sent' = ap (registrations j) (sent-process_sensor api valid server d w e at) in
      let (counts, kept) =
        process_all_registers_once j ps w' e (endpoint-process_sensor server d w ∙ at)
          (Keeps-process_sensor j server d w h) in
      (
        omega (
          arith,
          counts,
          sent',
          registrations-append j w.sent
              (probe api valid d w.registry ++ payload api valid server d w.registry),
          registrations-append j (probe api valid d w.registry)
              (payload api valid server d w.registry),
          registrations-probe j d w.registry,
          registrations-payload j server d w.registry h,
        ),
        kept,
      )
