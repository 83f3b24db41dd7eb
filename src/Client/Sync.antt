-- ===== src/Client/Sync.antt =====
-- A state update's response and the registry: what Home Assistant says about disabled entities
-- is what the registry holds afterwards.
use go_hass_agent.Prelude.{
  String, ◌≡◌, refl, sym, ap, ◌∙◌, Bool, true, false, Option, none, some, [], ◌∷◌, arith,
  if◌then◌else◌, eq_iff, ◌==◌,
}
use go_hass_agent.Prelude.Dict.{Dict, lookup}
use go_hass_agent.Sensor.{Details, nil, UpdateResponseStatus}
use go_hass_agent.Sensor.Request.{Request, new_request}
use go_hass_agent.Tracker.{Tracker, get, add}
use go_hass_agent.Tracker.Contents.{ready, ready-add, get-add-ready}
use go_hass_agent.Registry.{RegistryApi}
use go_hass_agent.Client.{Client, Server, World, Endpoint, send, is_error}
use go_hass_agent.Client.Traffic.{data_request}
use go_hass_agent.Client.Process.{
  update_registry, apply_update, apply_updates, handle_sensor_update,
}

-- The keys of a Go map are distinct.
abbrev pub Distinct : {A : Type 0} → Dict A → Type 0
Distinct [] = Unit {0}
Distinct ((k, a) ∷ m) = (lookup k m ≡ none) × Distinct m

abbrev pub reported : Option UpdateResponseStatus → Bool → Bool
reported none b = b
reported (some u) b = u.is_disabled

module _ {V R : Type 0} (api : RegistryApi R) (valid : Request V → Bool) where
  disabled-update_registry :
      (j id : String) (u : UpdateResponseStatus) (r : R)
      → api.is_disabled j (update_registry api valid id u r).1
        ≡ (if id == j then u.is_disabled else api.is_disabled j r)
  unfolding update_registry
  disabled-update_registry j id u r =
      ground (arith, eq_iff id j, api.disabled_after_disable id j u.is_disabled r)

  registered-update_registry :
      (j id : String) (u : UpdateResponseStatus) (r : R)
      → api.is_registered j (update_registry api valid id u r).1 ≡ api.is_registered j r
  unfolding update_registry
  registered-update_registry j id u r =
      ground (arith, api.registered_after_disable id j u.is_disabled r)

  pub registered-apply_updates :
      (j : String) (d : Details V) (m : Dict UpdateResponseStatus) (c : Client V R)
      → api.is_registered j (apply_updates api valid d m c).1.registry
        ≡ api.is_registered j c.registry
  unfolding apply_updates
  registered-apply_updates j d [] c = refl
  registered-apply_updates j d ((id, u) ∷ m) c =
      registered-apply_updates j d m _ ∙ registered-update_registry j id u c.registry

  disabled-apply_updates :
      (j : String) (d : Details V) (m : Dict UpdateResponseStatus) (c : Client V R)
      → Distinct m
      → api.is_disabled j (apply_updates api valid d m c).1.registry
        ≡ reported (lookup j m) (api.is_disabled j c.registry)
  unfolding apply_updates lookup
  disabled-apply_updates j d [] c h = refl
  disabled-apply_updates j d ((id, u) ∷ m) c h = ground (
    arith,
    eq_iff id j,
    disabled-update_registry j id u c.registry,
    disabled-apply_updates j d m (apply_update api valid d id u c).1,
  )

  -- What the tracker holds for a sensor that was just added.
  abbrev added : Details V → Tracker V → Option (Details V)
  added d t = if ready t then some d else none

  get-add-added : (d : Details V) (t : Tracker V) → get d.id (add d t).1 ≡ added d (add d t).1
  get-add-added d t =
      get-add-ready d t ∙ ap (λ (r : Bool). if r then some d else none) (sym (ready-add d t))

  added-add : (d : Details V) (t : Tracker V) → added d (add d t).1 ≡ added d t
  added-add d t = ap (λ (r : Bool). if r then some d else none) (ready-add d t)

  tracked-apply_updates :
      (d : Details V) (m : Dict UpdateResponseStatus) (c : Client V R)
      → get d.id c.tracker ≡ added d c.tracker
      → get d.id (apply_updates api valid d m c).1.tracker ≡ added d c.tracker
  unfolding apply_updates
  tracked-apply_updates d [] c h = h
  tracked-apply_updates d ((id, u) ∷ m) c h =
      tracked-apply_updates d m (apply_update api valid d id u c).1 (get-add-added d c.tracker)
      ∙ added-add d c.tracker

  -- What the tracker holds for the sensor after a response: an empty one adds nothing.
  abbrev pub tracked_after : Details V → Dict UpdateResponseStatus → Client V R → Option (Details V)
  tracked_after d [] c = get d.id c.tracker
  tracked_after d (_ ∷ m) c = if ready c.tracker then some d else none

  -- What holds of the client once Home Assistant has answered an update with the response `m`.
  pub record Updated (d : Details V) (m : Dict UpdateResponseStatus) (c c' : Client V R)
      : Type 0 where
    pub disabled :
        (j : String)
        → api.is_disabled j c'.registry ≡ reported (lookup j m) (api.is_disabled j c.registry)
    pub registered : (j : String) → api.is_registered j c'.registry ≡ api.is_registered j c.registry
    pub tracked : get d.id c'.tracker ≡ tracked_after d m c

  first_tracked :
      (d : Details V) (m : Dict UpdateResponseStatus) (c : Client V R)
      → get d.id (apply_updates api valid d m c).1.tracker ≡ tracked_after d m c
  unfolding apply_updates
  first_tracked d [] c = refl
  first_tracked d ((id, u) ∷ m) c =
      tracked-apply_updates d m (apply_update api valid d id u c).1 (get-add-added d c.tracker)
      ∙ added-add d c.tracker

  apply_updates-Updated :
      (d : Details V) (m : Dict UpdateResponseStatus) (c : Client V R)
      → Distinct m
      → Updated d m c (apply_updates api valid d m c).1
  apply_updates-Updated d m c distinct = record {
    disabled = λ j. disabled-apply_updates j d m c distinct;
    registered = λ j. registered-apply_updates j d m c;
    tracked = first_tracked d m c;
  }

  module _ (server : Server V) (d : Details V) (w : World V R) (e : Endpoint)
      (m : Dict UpdateResponseStatus) (at : w.endpoint ≡ some e)
      (accepted : valid (data_request d nil true) ≡ true)
      (fine : is_error (server.update (data_request d nil true)).status ≡ false)
      (answered : (server.update (data_request d nil true)).result ≡ some m) where
    client-handle_sensor_update :
        (handle_sensor_update api valid server d w).1.client
        ≡ (apply_updates api valid d m w.client).1
    unfolding handle_sensor_update send new_request
    client-handle_sensor_update = ground arith

    -- When a state update reaches Home Assistant and is answered by a response without an error
    -- status, whose keys are distinct, the registry has every entity of the response as disabled
    -- exactly if the response says so, also where a write to disk fails, and every other entity as
    -- before; no entity's registration changes; and the tracker holds the sensor, unless it was
    -- reset or the response is empty.
    pub handle_sensor_update-Updated :
        Distinct m → Updated d m w.client (handle_sensor_update api valid server d w).1.client
    handle_sensor_update-Updated distinct =
        rw client-handle_sensor_update (apply_updates-Updated d m w.client distinct)
