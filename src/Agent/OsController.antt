-- ===== src/Agent/OsController.antt =====
-- internal/agent/os_controller_linux.go: the workers of the sensors, and the entities of MQTT, that
-- the agent sets up on Linux. Marshalling by the MQTT library is a parameter, `none` for its error.
use go_hass_agent.Prelude.{
  String, Bool, true, false, Option, none, some, List, [], ◌∷◌, ◌++◌, map, ◌≡◌, refl, arith, ◌==◌,
  if◌then◌else◌,
}
use go_hass_agent.Prelude.Dict.{Dict, insert, lookup, lookup-insert}

-- sensorWorker, with the object W of the worker
pub record SensorWorker (W : Type 0) : Type 0 where
  pub object : W
  pub started : Bool

-- The loop over `allworkers`: a worker that cannot be made is left out, and one with the id of
-- another replaces it.
unfoldable pub set_up_workers :
    {W : Type 0} → List (Option (String × W)) → Dict (SensorWorker W) → Dict (SensorWorker W)
set_up_workers [] workers = workers
set_up_workers (none ∷ rest) workers = set_up_workers rest workers
set_up_workers (some (id, w) ∷ rest) workers =
    set_up_workers rest (insert id (record { object = w; started = false }) workers)

-- mqttWorker, by the kinds of entities E, with the subscriptions S of the controls
pub record MqttWorker (E S : Type 0) : Type 0 where
  pub sensors : List E
  pub buttons : List E
  pub numbers : List E
  pub switches : List E
  pub controls : List S
  pub binary_sensors : List E
  pub cameras : List E

abbrev pub no_entities : {E S : Type 0} → MqttWorker E S
no_entities = record {
  sensors = [];
  buttons = [];
  numbers = [];
  switches = [];
  controls = [];
  binary_sensors = [];
  cameras = [];
}

-- What the constructors of the controls return; `none` is an error, or nothing.
pub record Controls (E S : Type 0) : Type 0 where
  pub power : Option (List E)
  pub screen : Option (List E)
  pub volume : Option (E × E)
  pub mpris : Option E
  -- the start button, the stop button, the images and the status
  pub camera : E × E × E × E
  pub dbus_command : Option S

some_of : {A : Type 0} → Option (List A) → List A
some_of none = []
some_of (some xs) = xs

one_of : {A : Type 0} → Option A → List A
one_of none = []
one_of (some x) = x ∷ []

first_of : {A B : Type 0} → Option (A × B) → List A
first_of none = []
first_of (some p) = p.0 ∷ []

second_of : {A B : Type 0} → Option (A × B) → List B
second_of none = []
second_of (some p) = p.1 ∷ []

-- The part of `newOSController` for MQTT; without a device there is no controller.
unfoldable pub new_mqtt_worker : {E S : Type 0} → Bool → Controls E S → Option (MqttWorker E S)
unfolding some_of one_of first_of second_of
new_mqtt_worker false c = none
new_mqtt_worker true c = some (record {
  sensors = one_of c.mpris ++ c.camera.3 ∷ [];
  buttons = (some_of c.power ++ some_of c.screen) ++ c.camera.0 ∷ c.camera.1 ∷ [];
  numbers = first_of c.volume;
  switches = second_of c.volume;
  controls = one_of c.dbus_command;
  binary_sensors = [];
  cameras = c.camera.2 ∷ [];
})

module _ {E S C : Type 0} (marshal_subscription : E → Option S)
    (marshal_config : E → Option C) where
  -- `Subscriptions`: an entity that cannot be marshalled stands as nil.
  unfoldable pub subscriptions : MqttWorker E S → List (Option S)
  subscriptions w =
      map marshal_subscription w.buttons
      ++ map marshal_subscription w.numbers
      ++ map marshal_subscription w.switches
      ++ map some w.controls

  -- `Configs`
  unfoldable pub configs : MqttWorker E S → List (Option C)
  configs w =
      map marshal_config w.sensors
      ++ map marshal_config w.binary_sensors
      ++ map marshal_config w.buttons
      ++ map marshal_config w.numbers
      ++ map marshal_config w.switches
      ++ map marshal_config w.cameras

-- The last worker made with an id.
abbrev pub last_with : {W : Type 0} → String → List (Option (String × W)) → Option W → Option W
last_with id [] found = found
last_with id (none ∷ rest) found = last_with id rest found
last_with id (some (name, w) ∷ rest) found =
    last_with id rest (if name == id then some w else found)

abbrev pub fresh : {W : Type 0} → Option W → Option (SensorWorker W)
fresh none = none
fresh (some w) = some (record { object = w; started = false })

set_up-lookup :
    {W : Type 0} (made : List (Option (String × W))) (id : String) (workers : Dict (SensorWorker W))
    (found : Option W)
    → lookup id workers ≡ fresh found
    → lookup id (set_up_workers made workers) ≡ fresh (last_with id made found)
unfolding set_up_workers
set_up-lookup [] id workers found h = h
set_up-lookup (none ∷ rest) id workers found h = set_up-lookup rest id workers found h
set_up-lookup (some (name, w) ∷ rest) id workers found h =
    set_up-lookup rest id (insert name (record { object = w; started = false }) workers)
      (if name == id then some w else found)
      (ground (arith, h, lookup-insert name id (record { object = w; started = false }) workers))

-- After the set-up there is a worker, not yet started, for exactly the ids of the workers that could
-- be made, and of two with the same id, as the usage of the processors is listed twice, the later.
pub set_up_workers-lookup :
    {W : Type 0} (made : List (Option (String × W))) (id : String)
    → lookup id (set_up_workers made []) ≡ fresh (last_with id made none)
unfolding lookup
set_up_workers-lookup made id = set_up-lookup made id [] none refl
