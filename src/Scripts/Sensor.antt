-- ===== src/Scripts/Sensor.antt =====
-- internal/scripts/scripts.go and sensor.go, and findScripts of controller.go. Running a command,
-- the three decoders, the file system and the name conversion strcase.ToSnake are parameters.
use go_hass_agent.Prelude.{
  String, Bool, true, false, Option, none, some, List, [], ◌∷◌, map, ◌==◌, if◌then◌else◌,
}
use go_hass_agent.Prelude.Dict.{Dict}
use go_hass_agent.Prelude.Split.{split_spaces}
use go_hass_agent.Sensor.{Details, State}
use go_hass_agent.Sensor.Classes.{
  SensorClass, sensor, binary_sensor, StateClass, measurement, total, total_increasing, DeviceClass,
  device_class_string, device_classes,
}
use go_hass_agent.Scripts.Controller.{Job}

pub record ScriptSensor (V : Type 0) : Type 0 where
  pub sensor_state : State V
  pub sensor_attributes : Option V
  pub sensor_name : String
  pub sensor_icon : String
  pub sensor_device_class : String
  pub sensor_state_class : String
  pub sensor_state_type : String
  pub sensor_units : String

unfoldable pub sensor_type : String → SensorClass
sensor_type s = if s == "binary" then binary_sensor else sensor

-- The loop of `DeviceClass` over the constants.
unfoldable pub first_class : String → List DeviceClass → DeviceClass
first_class s [] = DeviceClass.none
first_class s (d ∷ ds) = if s == device_class_string d then d else first_class s ds

unfoldable pub device_class : String → DeviceClass
unfolding first_class
device_class s = first_class s device_classes

unfoldable pub state_class : String → StateClass
state_class s =
    if s == "measurement"
    then measurement
    else if s == "total"
    then total
    else if s == "total_increasing"
    then total_increasing
    else StateClass.none

module _ {V : Type 0} (to_snake : String → String) where
  extra_attributes : Option V → Dict V
  extra_attributes none = []
  extra_attributes (some a) = ("extra_attributes", a) ∷ []

  -- The methods of ScriptSensor.
  unfoldable pub script_details : ScriptSensor V → Details V
  unfolding sensor_type device_class state_class extra_attributes
  script_details s = record {
    id = to_snake s.sensor_name;
    icon = if s.sensor_icon == "" then "mdi:script" else s.sensor_icon;
    state = s.sensor_state;
    sensor_type = sensor_type s.sensor_state_type;
    units = s.sensor_units;
    attributes = extra_attributes s.sensor_attributes;
    name = s.sensor_name;
    device_class = device_class s.sensor_device_class;
    state_class = state_class s.sensor_state_class;
    category = "";
  }

pub record ScriptOutput (V : Type 0) : Type 0 where
  pub schedule : String
  pub sensors : List (ScriptSensor V)

-- Running a command (`none` is a failure), and the decoders, each with what it makes of the
-- output that it is given, also where it fails.
pub record Runner (V : Type 0) : Type 0 where
  pub run : List String → Option String
  pub json : String → ScriptOutput V → Bool × ScriptOutput V
  pub yaml : String → ScriptOutput V → Bool × ScriptOutput V
  pub toml : String → ScriptOutput V → Bool × ScriptOutput V

pub data ScriptFailure : Type 0 where
  no_command not_run not_decoded : ScriptFailure

pub data Parsed (V : Type 0) : Type 0 where
  output : ScriptOutput V → Parsed V
  failure : ScriptFailure → Parsed V

pub record Script : Type 0 where
  pub path : String
  pub schedule : String

module _ {V : Type 0} (runner : Runner V) where
  -- `Unmarshal`: JSON, then YAML, then TOML; false joins the three errors.
  unfoldable pub unmarshal : String → ScriptOutput V → Bool × ScriptOutput V
  unmarshal out o =
      let (json_ok, o') = runner.json out o in
      let (yaml_ok, o'') = runner.yaml out o' in
      if json_ok then (true, o') else if yaml_ok then (true, o'') else runner.toml out o''

  decoded : Bool × ScriptOutput V → Parsed V
  decoded (true, o) = output o
  decoded (false, o) = failure not_decoded

  read_output : Option String → Parsed V
  unfolding decoded unmarshal
  read_output none = failure not_run
  read_output (some out) = decoded (unmarshal out (record { schedule = ""; sensors = [] }))

  run_elements : List String → Parsed V
  unfolding read_output
  run_elements [] = failure no_command
  run_elements (e ∷ es) = read_output (runner.run (e ∷ es))

  -- `parse`
  unfoldable pub parse : Script → Parsed V
  unfolding run_elements
  parse s = run_elements (split_spaces s.path)

  -- `Execute`: `none` is the wrapped error.
  sensors_of : (String → String) → Parsed V → Option (List (Details V))
  sensors_of to_snake (failure e) = none
  sensors_of to_snake (output o) = some (map (script_details to_snake) o.sensors)

  unfoldable pub execute : (String → String) → Script → Option (List (Details V))
  unfolding sensors_of
  execute to_snake s = sensors_of to_snake (parse s)

  scheduled_as : String → Parsed V → Option Script
  scheduled_as path (failure e) = none
  scheduled_as path (output o) = some (record { path = path; schedule = o.schedule })

  -- `NewScript`: `none` is the wrapped error.
  unfoldable pub new_script : String → Option Script
  unfolding scheduled_as
  new_script path = scheduled_as path (parse (record { path = path; schedule = "" }))

  kept : Bool → Option Script → List Script → List Script
  kept false o rest = rest
  kept true none rest = rest
  kept true (some s) rest = s ∷ rest

  -- `findScripts`, over the files of the directory; the errors of scripts are dropped.
  unfoldable pub find_scripts : (String → Bool) → List String → List Script
  unfolding kept
  find_scripts is_executable [] = []
  find_scripts is_executable (file ∷ files) =
      kept (is_executable file) (new_script file) (find_scripts is_executable files)

-- The jobs of NewScriptsController: no script is scheduled yet.
unfoldable pub new_jobs : List Script → List Job
new_jobs = map (λ (s : Script). record { path = s.path; schedule = s.schedule; id = 0 })
