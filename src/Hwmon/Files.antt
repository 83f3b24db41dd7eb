-- ===== src/Hwmon/Files.antt =====
-- `getSensorFiles` for one file, and `updateInfo` with the fields that it changes.
use go_hass_agent.Prelude.{
  String, Bool, Option, none, some, List, [], ◌∷◌, ◌++◌, ◌==◌, if◌then◌else◌,
}
use go_hass_agent.Prelude.Text.{◌+++◌, contains, cut, before, split_on, join, parse_bool}
use go_hass_agent.Hwmon.{
  monitor_type_string, parse_sensor_type, Floats, flag, float, ChipSensor, SensorFile,
}

-- An entry of the directory: its name, and what reading it gives, `none` for a directory or a
-- file that cannot be read.
abbrev pub Entry : Type 0
Entry = String × Option String

-- The id of a file, with the suffix of an alarm.
unfoldable pub file_id : String → String → String
file_id id attr = if contains attr "alarm" then id +++ "_alarm" else id

unfoldable pub file_with : String → Option String → Option (String × String) → Option SensorFile
unfolding file_id parse_sensor_type
file_with name contents none = none
file_with name none (some (id, attr)) = none
file_with name (some contents) (some (id, attr)) = some (record {
  name = name;
  sensor_id = file_id id attr;
  attribute = attr;
  contents = contents;
  sensor_type = parse_sensor_type (file_id id attr);
})

-- What one goroutine of `getSensorFiles` sends, if anything.
unfoldable pub sensor_file : Entry → Option SensorFile
unfolding file_with
sensor_file (name, contents) = file_with name contents (cut b'_' name)

module _ {F : Type 0} (floats : Floats F) where
  unfoldable pub set_flag : Option Bool → ChipSensor F → ChipSensor F
  set_flag none s = s
  set_flag (some b) s = record s { value = flag b }

  -- The label and id of an alarm: of a limit in two parts, else of the channel.
  unfoldable pub with_alarm : SensorFile → List String → ChipSensor F → ChipSensor F
  with_alarm file (limit ∷ last ∷ []) s =
      let id = before b'_' file.sensor_id in
      record s {
        label = join " " (id ∷ limit ∷ monitor_type_string file.sensor_type ∷ []);
        id = join "_" (id ∷ limit ∷ "alarm" ∷ []);
      }
  with_alarm file parts s = record s {
    label = join " " (before b'_' file.sensor_id ∷ monitor_type_string file.sensor_type ∷ []);
  }

  set_number : String → Option F → ChipSensor F → ChipSensor F
  set_number attr none s = s
  set_number attr (some x) s =
      if attr == "input"
      then record s { value = float (floats.scaled x s.scale_factor) }
      else record s {
        attributes =
            s.attributes ++ record { name = attr; value = floats.scaled x s.scale_factor } ∷ [];
      }

  -- `updateInfo`: an error of a parser is logged, and the fields set before it stay.
  unfoldable pub update_info : SensorFile → ChipSensor F → ChipSensor F
  unfolding set_flag with_alarm set_number
  update_info file s =
      if file.attribute == "label"
      then record s { label = file.contents }
      else if contains file.attribute "alarm"
      then set_flag (parse_bool file.contents) (with_alarm file (split_on b'_' file.attribute) s)
      else if contains file.attribute "intrusion"
      then set_flag (parse_bool file.contents) (record s {
        label = join " " (before b'_' file.sensor_id ∷ monitor_type_string file.sensor_type ∷ []);
      })
      else set_number file.attribute (floats.parse_float file.contents) s
