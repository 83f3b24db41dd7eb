-- ===== src/Agent/Register/Registered.antt =====
-- internal/agent/register.go: what holds after a registration that gave no error.
use go_hass_agent.Prelude.{
  String, Bool, true, false, not, ◌&&◌, Option, none, some, List, ◌≡◌, sym, subst, ap, ◌∙◌,
  if◌then◌else◌, inl, inr, refl, arith, Bool-cases,
}
use go_hass_agent.Preferences.{
  Preferences, Registration, Hass, Disk, Toml, PreferencesError, save, formatted, write_file,
  is_default, Writing, whole, refused, partial,
}
use go_hass_agent.Sensor.{Details}
use go_hass_agent.Tracker.{Tracker, reset, get, add, sensor_list, tracker_not_ready}
use go_hass_agent.Tracker.Contents.{add_all, reset_refuses}
use go_hass_agent.Agent.Urls.{UrlApi}
use go_hass_agent.Agent.Register.{
  AgentState, RegisterResult, fine, panicked, device_failed, api_url_failed, websocket_url_failed,
  save_failed, World, saved, with_socket, with_api, save_registration, cleared, with_details,
  register_as, ask_first, save_with, check_registration,
}

-- Without an error, the agent is registered and the file holds the preferences as they now are;
-- whether the registration is forced, `b`, and the tracker, `t`, are as before.
abbrev IsStored :
    {T V : Type 0} → Toml T → Bool → Tracker V → RegisterResult × AgentState T V → Type 0
IsStored toml b t (r, a) =
    r ≡ fine
    → (a.prefs.registered ≡ true)
      × (a.disk.contents ≡ toml.marshal a.prefs)
      × (a.force_register ≡ b)
      × (a.tracker ≡ t)

-- A forced registration has reset the tracker, too.
abbrev IsDone :
    {T V : Type 0} → Toml T → Bool → Tracker V → RegisterResult × AgentState T V → Type 0
IsDone toml b t (r, a) =
    r ≡ fine
    → (a.prefs.registered ≡ true)
      × (a.disk.contents ≡ toml.marshal a.prefs)
      × (a.tracker ≡ (if b then reset t else t))

module _ {T : Type 0} (toml : Toml T) where
  written :
      (text : T) (o : Writing T) (d : Disk T)
      → (write_file o text d).0 ≡ none
      → (write_file o text d).1.contents ≡ some text
  unfolding write_file
  written text whole d h = refl
  written text refused d h = cc
  written text (partial head) d h = cc

  formatted-Written :
      (o : Option T) (d : Disk T)
      → (formatted toml o d).0 ≡ none
      → (formatted toml o d).1.contents ≡ o
  unfolding formatted
  formatted-Written none d h = cc
  formatted-Written (some text) d h = written text d.writing d h

  save-Written :
      (p : Preferences) (d : Disk T)
      → (save toml p d).0 ≡ none
      → (save toml p d).1.contents ≡ toml.marshal p
  unfolding save
  save-Written p d h =
      ground (arith, formatted-Written (toml.marshal p) (record d { dir_exists = true }))

-- No sensor is tracked, and none can be added.
abbrev IsLost : {V : Type 0} → Tracker V → List (Details V) → Details V → String → Type 0
IsLost t ds d j =
    let t' = add_all ds t in
    ((add d t').0 ≡ some tracker_not_ready) × (get j t' ≡ none) × (sensor_list t' ≡ none)

forced :
    {T V : Type 0} (a : AgentState T V)
    → a.force_register ≡ true
    → a.prefs.registered && not a.force_register ≡ false
forced a f = ground arith

module _ {U T V : Type 0} (url : UrlApi U) (toml : Toml T) (w : World) where
  saved-IsStored :
      (r : Option PreferencesError × Disk T) (a : AgentState T V)
      → a.prefs.registered ≡ true
      → (r.0 ≡ none → r.1.contents ≡ toml.marshal a.prefs)
      → IsStored toml a.force_register a.tracker (saved url toml w r a)
  unfolding saved
  saved-IsStored (none, d) a r h = λ e. (r, h refl, refl, refl)
  saved-IsStored (some e, d) a r h = λ e. cc

  with_socket-IsStored :
      (o : Option String) (h : Hass) (a : AgentState T V)
      → IsStored toml a.force_register a.tracker (with_socket url toml w o h a)
  unfolding with_socket
  with_socket-IsStored none h a = λ e. cc
  with_socket-IsStored (some s) h a =
      saved-IsStored (save toml _ a.disk) _ refl (save-Written toml _ a.disk)

  with_api-IsStored :
      (o : Option String) (r : Registration) (h : Hass) (a : AgentState T V)
      → IsStored toml a.force_register a.tracker (with_api url toml w o r h a)
  unfolding with_api
  with_api-IsStored none r h a = λ e. cc
  with_api-IsStored (some s) r h a = with_socket-IsStored _ _ a

  save_with-IsStored :
      (r : Option Registration) (h : Hass) (a : AgentState T V)
      → IsStored toml a.force_register a.tracker (save_with url toml w r h a)
  unfolding save_with
  save_with-IsStored none h a = λ e. cc
  save_with-IsStored (some r) h a = with_api-IsStored _ r h a

  cleared-IsDone :
      (b : Bool) (t : Tracker V) (r : RegisterResult × AgentState T V)
      → IsStored toml b t r
      → IsDone toml b t (cleared url toml w r)
  unfolding cleared
  cleared-IsDone b t (fine, a) h = λ e.
      let (known, file, force, same) = h refl in
      elim (Bool-cases b) [
        | inl f ↦ rw (force ∙ f) (known, file, rw f (ap reset same))
        | inr f ↦ rw (force ∙ f) (known, file, rw f same)
      ]
  cleared-IsDone b t (panicked, a) h = λ e. cc
  cleared-IsDone b t (device_failed, a) h = λ e. cc
  cleared-IsDone b t (api_url_failed, a) h = λ e. cc
  cleared-IsDone b t (websocket_url_failed, a) h = λ e. cc
  cleared-IsDone b t (save_failed x, a) h = λ e. cc

  with_details-IsDone :
      (new old : Option Hass) (a : AgentState T V)
      → IsDone toml a.force_register a.tracker (with_details url toml w new old a)
  unfolding with_details save_registration
  with_details-IsDone none old a = λ e. cc
  with_details-IsDone (some new) none a = λ e. cc
  with_details-IsDone (some new) (some old) a = cleared-IsDone _ _ _ (save_with-IsStored _ _ a)

  register_as-IsDone :
      (r : Option Registration) (a : AgentState T V)
      → IsDone toml a.force_register a.tracker (register_as url toml w r a)
  unfolding register_as
  register_as-IsDone none a = λ e. cc
  register_as-IsDone (some r) a = with_details-IsDone _ a.prefs.hass a

  ask_first-IsDone :
      (b : Bool) (r : Option Registration) (a : AgentState T V)
      → IsDone toml a.force_register a.tracker (ask_first url toml w b r a)
  unfolding ask_first
  ask_first-IsDone true r a = register_as-IsDone r a
  ask_first-IsDone false none a = λ e. cc
  ask_first-IsDone false (some r) a = elim (Bool-cases (is_default r)) [
    | inl e ↦ rw e (register_as-IsDone _ (record a { prefs = w.ask a.prefs }))
    | inr e ↦ rw e (register_as-IsDone _ a)
  ]

  check_registration-IsDone :
      (a : AgentState T V)
      → a.prefs.registered && not a.force_register ≡ false
      → IsDone toml a.force_register a.tracker (check_registration url toml w a)
  unfolding check_registration
  check_registration-IsDone a needed = rw needed (ask_first-IsDone _ _ a)

  -- When the agent is not registered yet, or registration is forced, and the registration gives no
  -- error: the agent is registered, the preferences file holds the preferences as they now are,
  -- and the tracker is reset if the registration was forced, and is as before if not.
  pub check_registration-IsRegistered :
      (a : AgentState T V)
      → a.prefs.registered && not a.force_register ≡ false
      → (check_registration url toml w a).0 ≡ fine
      → let a' = (check_registration url toml w a).1 in
        (a'.prefs.registered ≡ true)
        × (a'.disk.contents ≡ toml.marshal a'.prefs)
        × (a'.tracker ≡ (if a.force_register then reset a.tracker else a.tracker))
  check_registration-IsRegistered a needed done = check_registration-IsDone a needed done

  -- After a forced registration that gives no error, the agent tracks no sensor any more: whatever
  -- sensors are added later, each is refused, and the tracker has no list of sensors.
  pub forced_registration_stops_tracking :
      (a : AgentState T V) (ds : List (Details V)) (d : Details V) (j : String)
      → a.force_register ≡ true
      → (check_registration url toml w a).0 ≡ fine
      → let t = add_all ds (check_registration url toml w a).1.tracker in
        ((add d t).0 ≡ some tracker_not_ready) × (get j t ≡ none) × (sensor_list t ≡ none)
  forced_registration_stops_tracking a ds d j f h =
      let done = check_registration-IsRegistered a (forced a f) h in
      let was_reset = done.2 ∙ ap (λ (b : Bool). if b then reset a.tracker else a.tracker) f in
      subst (λ (s : Tracker V). IsLost s ds d j) (sym was_reset) (reset_refuses a.tracker ds d j)
