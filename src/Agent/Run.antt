-- ===== src/Agent/Run.antt =====
-- internal/agent/agent.go, controllers.go, sensor_controller.go and mqtt_controller.go: how an agent is
-- made, which controllers it sets up and runs, and the channel that ends it. The window toolkit, the
-- controllers' channels (see Merge) and the MQTT library are left out.
use go_hass_agent.Prelude.{
  String, Bool, true, false, Option, none, some, List, [], ◌∷◌, ◌++◌, length, ◌≡◌, if◌then◌else◌,
  refl, ltb, arith,
}
use go_hass_agent.Preferences.{
  Preferences, Mqtt, Disk, Toml, PreferencesError, no_preferences, load, save, device_name,
  device_id,
}
use go_hass_agent.Agent.Merge.{Channel, Merging, merge_ch}

-- Agent, less its parts that only do input and output
pub record Agent : Type 0 where
  pub prefs : Preferences
  pub id : String
  pub headless : Bool
  pub force_register : Bool

pub data AgentOption : Type 0 where
  headless : Bool → AgentOption
  with_registration_info : String → String → Bool → AgentOption
  force_register : Bool → AgentOption

unfoldable pub apply_option : AgentOption → Agent → Agent
apply_option (headless b) a = record a { headless = b }
apply_option (with_registration_info server token ignore_urls) a = record a {
  prefs = record a.prefs {
    registration = some (record { server = server; token = token });
    hass = some (record {
      cloudhook_url = "";
      remote_ui_url = "";
      secret = "";
      webhook_id = "";
      rest_api_url = "";
      websocket_url = "";
      ignore_hass_urls = ignore_urls;
    });
  };
}
apply_option (force_register b) a = record a { force_register = b }

apply_options : List AgentOption → Agent → Agent
unfolding apply_option
apply_options [] a = a
apply_options (o ∷ options) a = apply_options options (apply_option o a)

-- `NewAgent`, for what `Load` returns; `none` is its error.
made : String → List AgentOption → Option PreferencesError × Preferences → Option Agent
unfolding apply_options
made id options (none, prefs) = some (
    apply_options options
      (record { prefs = prefs; id = id; headless = false; force_register = false }))
made id options (some no_preferences, prefs) = some (
    apply_options options
      (record { prefs = prefs; id = id; headless = false; force_register = false }))
made id options (some e, prefs) = none

module _ {T : Type 0} (toml : Toml T) where
  unfoldable pub new_agent : String → List AgentOption → Disk T → Preferences → Option Agent
  unfolding made
  new_agent id options d defaults = made id options (load toml d defaults)

  -- `SaveMQTTPreferences`, for an agent that has preferences
  unfoldable pub save_mqtt_preferences :
      Mqtt → Agent → Disk T → Option PreferencesError × Agent × Disk T
  save_mqtt_preferences m a d =
      let a' : Agent = record a { prefs = record a.prefs { mqtt = some m } } in
      let (e, d') = save toml a'.prefs d in (e, a', d')

-- The device for MQTT, for what the hardware gives for its model and its vendor.
pub record MqttDevice : Type 0 where
  pub name : String
  pub manufacturer : String
  pub model : String
  pub identifiers : List String

unfoldable pub new_mqtt_device : String → String → Agent → MqttDevice
new_mqtt_device model manufacturer a = record {
  name = device_name a.prefs;
  manufacturer = manufacturer;
  model = model;
  identifiers = a.id ∷ device_name a.prefs ∷ device_id a.prefs ∷ [];
}

unfoldable pub mqtt_enabled : Preferences → Bool
mqtt_enabled p = elim p.mqtt [ none ↦ false | some m ↦ m.enabled ]

-- A controller of sensors or of MQTT, or nil.
pub data Controller (S M : Type 0) : Type 0 where
  sensor_controller : S → Controller S M
  mqtt_controller : M → Controller S M
  nil_controller : Controller S M

module _ {S M : Type 0} where
  abbrev pub sensor_some : Option S → List (Controller S M)
  sensor_some none = []
  sensor_some (some c) = sensor_controller c ∷ []

  mqtt_some : Option M → List (Controller S M)
  mqtt_some none = []
  mqtt_some (some c) = mqtt_controller c ∷ []

  mqtt_or_nil : Option M → Controller S M
  mqtt_or_nil none = nil_controller
  mqtt_or_nil (some c) = mqtt_controller c

  -- `setupControllers`, for what the constructors return; that of the MQTT commands runs only with
  -- MQTT enabled, and that of the operating system has an MQTT controller only then.
  unfoldable pub setup_controllers :
      Preferences → Option M → Option S → S → S → M → List (Controller S M)
  unfolding mqtt_some mqtt_or_nil
  setup_controllers prefs commands scripts device os os_mqtt =
      (if mqtt_enabled prefs then mqtt_some commands else [])
      ++ sensor_some scripts
      ++ sensor_controller device
        ∷ sensor_controller os
        ∷ mqtt_or_nil (if mqtt_enabled prefs then some os_mqtt else none)
        ∷ []

  -- The type switch of `Run`
  unfoldable pub sensor_controllers : List (Controller S M) → List S
  sensor_controllers [] = []
  sensor_controllers (sensor_controller c ∷ cs) = c ∷ sensor_controllers cs
  sensor_controllers (mqtt_controller c ∷ cs) = sensor_controllers cs
  sensor_controllers (nil_controller ∷ cs) = sensor_controllers cs

  unfoldable pub mqtt_controllers : List (Controller S M) → List M
  mqtt_controllers [] = []
  mqtt_controllers (sensor_controller c ∷ cs) = mqtt_controllers cs
  mqtt_controllers (mqtt_controller c ∷ cs) = c ∷ mqtt_controllers cs
  mqtt_controllers (nil_controller ∷ cs) = mqtt_controllers cs

  -- MQTT runs exactly where it is enabled: without it no controller of MQTT is set up, and with it
  -- there is at least that of the operating system. The sensors do not depend on it.
  pub mqtt_controllers-enabled :
      (prefs : Preferences) (commands : Option M) (scripts : Option S) (device os : S) (os_mqtt : M)
      → (ltb 0
            (length (mqtt_controllers (setup_controllers prefs commands scripts device os os_mqtt)))
          ≡ mqtt_enabled prefs)
        × (sensor_controllers (setup_controllers prefs commands scripts device os os_mqtt)
            ≡ sensor_controllers (sensor_some scripts) ++ device ∷ os ∷ [])
  unfolding mqtt_controllers sensor_controllers setup_controllers
  mqtt_controllers-enabled prefs none none device os os_mqtt = ground arith
  mqtt_controllers-enabled prefs none (some s) device os os_mqtt = ground arith
  mqtt_controllers-enabled prefs (some c) none device os os_mqtt = ground arith
  mqtt_controllers-enabled prefs (some c) (some s) device os os_mqtt = ground arith

-- `runSensorWorkers`: what `StartAll` of each controller returns.
pub record Started (A : Type 0) : Type 0 where
  pub has_errors : Bool
  pub channel : Channel A

unfoldable pub started_channels : {A : Type 0} → List (Started A) → List (Channel A)
started_channels [] = []
started_channels (s ∷ rest) =
    let others = started_channels rest in if s.has_errors then others else s.channel ∷ others

-- How it goes on: it ends at once, stops the controllers, or processes what is merged.
pub data Processing (A : Type 0) : Type 0 where
  no_workers stopping : Processing A
  processing : Merging A → Processing A

processed : {A : Type 0} → Bool → List (Channel A) → Processing A
processed cancelled [] = no_workers
processed true (c ∷ cs) = stopping
processed false (c ∷ cs) = processing (merge_ch (c ∷ cs))

unfoldable pub run_sensor_workers : {A : Type 0} → Bool → List (Started A) → Processing A
unfolding processed
run_sensor_workers cancelled started = processed cancelled (started_channels started)

-- agent.done, and what closes it: a failed registration, a signal, Stop, or the end of Register.
pub data Done : Type 0 where
  open_done closed_done panicked : Done

pub data Closer : Type 0 where
  registration_failed interrupted stopped registered : Closer

unfoldable pub close_done : Done → Done
close_done open_done = closed_done
close_done closed_done = panicked
close_done panicked = panicked

unfoldable pub closings : List Closer → Done → Done
unfolding close_done
closings [] d = d
closings (c ∷ cs) d = closings cs (close_done d)

panicked_stays : (cs : List Closer) → closings cs panicked ≡ panicked
unfolding closings
panicked_stays [] = refl
panicked_stays (c ∷ cs) = panicked_stays cs

-- The channel that ends the agent is closed without a guard by a failed registration, by a signal and
-- by Stop, so that any two of these, in any order, end in a panic.
pub two_closers_panic :
    (first second : Closer) (more : List Closer)
    → closings (first ∷ second ∷ more) open_done ≡ panicked
unfolding closings
two_closers_panic first second more = panicked_stays more
