-- ===== src/Hwmon/Chips.antt =====
-- `getSensors`, `newChip`, `GetAllChips` and `GetAllSensors`. The goroutines send the files and the
-- chips in any order, so the lists here stand for the order in which they arrive.
use go_hass_agent.Prelude.{
  String, Bool, true, false, Option, none, some, List, [], ◌∷◌, ◌++◌, ◌==◌, if◌then◌else◌,
}
use go_hass_agent.Prelude.Dict.{Dict, lookup, insert}
use go_hass_agent.Prelude.Text.{◌+++◌}
use go_hass_agent.Hwmon.{
  monitor_type_string, Floats, Value, nil, ChipSensor, SensorFile, new_sensor,
}
use go_hass_agent.Hwmon.Files.{Entry, sensor_file, update_info}

unfoldable pub tracker_id : SensorFile → String
tracker_id file = file.sensor_id +++ "_" +++ monitor_type_string file.sensor_type

abbrev pub or_new : {F : Type 0} → SensorFile → Option (ChipSensor F) → ChipSensor F
or_new file none = new_sensor file
or_new file (some s) = s

unfoldable pub sent_before : Option SensorFile → List SensorFile → List SensorFile
sent_before none files = files
sent_before (some file) files = file ∷ files

-- The files that the goroutines send for the entries of the directory.
unfoldable pub get_sensor_files : List Entry → List SensorFile
unfolding sent_before
get_sensor_files [] = []
get_sensor_files (e ∷ entries) = sent_before (sensor_file e) (get_sensor_files entries)

pub record Chip (F : Type 0) : Type 0 where
  pub chip_name : String
  pub chip_id : String
  pub device_model : String
  pub path : String
  pub sensors : List (ChipSensor F)

-- `Chip.String`
unfoldable pub chip_string : {F : Type 0} → Chip F → String
chip_string c =
    if c.device_model == ""
    then (if c.chip_name == "" then c.chip_id else c.chip_name)
    else c.device_model

-- A directory of a chip: whether it can be listed, its `name` and its `device/model`, each `none`
-- where it cannot be read, or is no regular file.
pub record ChipDir : Type 0 where
  pub base : String
  pub path : String
  pub name_file : Option String
  pub model_file : Option String
  pub entries : Option (List Entry)

module _ {F : Type 0} (floats : Floats F) where
  -- One round of the loop over the files.
  unfoldable pub collect_file : SensorFile → Dict (ChipSensor F) → Dict (ChipSensor F)
  unfolding tracker_id
  collect_file file all =
      insert (tracker_id file)
        (update_info floats file (or_new file (lookup (tracker_id file) all))) all

  unfoldable pub collect : List SensorFile → Dict (ChipSensor F) → Dict (ChipSensor F)
  unfolding collect_file
  collect [] all = all
  collect (file ∷ files) all = collect files (collect_file file all)

  unfoldable pub has_value : Value F → Bool
  has_value nil = false
  has_value _ = true

  -- The sensors of the map with a value, in the order of the range.
  unfoldable pub with_values : Dict (ChipSensor F) → List (ChipSensor F)
  unfolding has_value
  with_values [] = []
  with_values ((id, s) ∷ all) =
      let rest = with_values all in if has_value s.value then s ∷ rest else rest

  -- `getSensors`; `none` is its error.
  unfoldable pub get_sensors : Option (List Entry) → Option (List (ChipSensor F))
  unfolding get_sensor_files collect with_values
  get_sensors none = none
  get_sensors (some entries) = some (with_values (collect (get_sensor_files entries) []))

  abbrev pub or_empty : Option String → String
  or_empty none = ""
  or_empty (some text) = text

  chip_with : ChipDir → String → Option (List (ChipSensor F)) → Option (Chip F)
  chip_with dir name none = none
  chip_with dir name (some sensors) = some (record {
    chip_name = name;
    chip_id = dir.base;
    device_model = or_empty dir.model_file;
    path = dir.path;
    sensors = sensors;
  })

  -- `newChip`; `none` where its error is not nil.
  unfoldable pub new_chip : ChipDir → Option (Chip F)
  unfolding chip_with get_sensors
  new_chip dir = elim dir.name_file [
    | none ↦ none
    | some name ↦ chip_with dir name (get_sensors dir.entries)
  ]

  collect_chips : List ChipDir → List (Chip F)
  unfolding new_chip
  collect_chips [] = []
  collect_chips (dir ∷ dirs) = elim (new_chip dir) [
    | none ↦ collect_chips dirs
    | some chip ↦ chip ∷ collect_chips dirs
  ]

  -- `GetAllChips`; a chip with an error is left out, and no error of it is returned.
  unfoldable pub get_all_chips : Option (List ChipDir) → Option (List (Chip F))
  unfolding collect_chips
  get_all_chips none = none
  get_all_chips (some dirs) = some (collect_chips dirs)

  unfoldable pub sensors_of : List (Chip F) → List (ChipSensor F)
  sensors_of [] = []
  sensors_of (chip ∷ chips) = chip.sensors ++ sensors_of chips

  -- `GetAllSensors`
  unfoldable pub get_all_sensors : Option (List ChipDir) → Option (List (ChipSensor F))
  unfolding get_all_chips sensors_of
  get_all_sensors dirs = elim (get_all_chips dirs) [
    | none ↦ none
    | some chips ↦ some (sensors_of chips)
  ]
