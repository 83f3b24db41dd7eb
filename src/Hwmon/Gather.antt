-- ===== src/Hwmon/Gather.antt =====
-- What the sensors of a chip are made from, whatever the order in which the goroutines of
-- `getSensorFiles` deliver the files.
use go_hass_agent.Prelude.{
  String, Option, none, some, List, [], ◌∷◌, ◌≡◌, refl, ◌==◌, if◌then◌else◌, eq_iff, arith,
}
use go_hass_agent.Prelude.Dict.{Dict, lookup, lookup-insert}
use go_hass_agent.Hwmon.{Floats, ChipSensor, SensorFile, new_sensor}
use go_hass_agent.Hwmon.Files.{update_info}
use go_hass_agent.Hwmon.Chips.{tracker_id, or_new, collect_file, collect}

-- The files of one tracker id, in the order of their arrival.
unfoldable pub files_of : String → List SensorFile → List SensorFile
files_of id [] = []
files_of id (file ∷ files) =
    let rest = files_of id files in if tracker_id file == id then file ∷ rest else rest

module _ {F : Type 0} (floats : Floats F) where
  unfoldable pub updated_by : List SensorFile → ChipSensor F → ChipSensor F
  updated_by [] s = s
  updated_by (file ∷ files) s = updated_by files (update_info floats file s)

  -- A sensor made new for the first file, and updated by each.
  unfoldable pub built_from : List SensorFile → Option (ChipSensor F)
  unfolding updated_by
  built_from [] = none
  built_from (file ∷ files) = some (updated_by (file ∷ files) (new_sensor file))

  grown : List SensorFile → Option (ChipSensor F) → Option (ChipSensor F)
  unfolding built_from updated_by
  grown files none = built_from files
  grown files (some s) = some (updated_by files s)

  grown-cons :
      (file : SensorFile) (files : List SensorFile) (o : Option (ChipSensor F))
      → grown files (some (update_info floats file (or_new file o))) ≡ grown (file ∷ files) o
  unfolding grown built_from updated_by
  grown-cons file files none = refl
  grown-cons file files (some s) = refl

  collect-grown :
      (id : String) (files : List SensorFile) (all : Dict (ChipSensor F))
      → lookup id (collect floats files all) ≡ grown (files_of id files) (lookup id all)
  unfolding collect files_of collect_file grown
  collect-grown id [] all = elim (lookup id all) as (λ o. o ≡ grown [] o) [
    | none ↦ refl
    | some s ↦ refl
  ]
  collect-grown id (file ∷ files) all = ground (
    arith,
    eq_iff (tracker_id file) id,
    collect-grown id files (collect_file floats file all),
    lookup-insert (tracker_id file) id
        (update_info floats file (or_new file (lookup (tracker_id file) all))) all,
    grown-cons file (files_of id files) (lookup (tracker_id file) all),
  )

-- Whatever the order in which the goroutines deliver the files, the sensor of a tracker id depends
-- on its own files alone: it is a new sensor of the first of them, updated by each in the order of
-- their arrival, and there is none without such a file.
pub collect-built_from :
    {F : Type 0} (floats : Floats F) (files : List SensorFile) (id : String)
    → lookup id (collect floats files []) ≡ built_from floats (files_of id files)
unfolding lookup grown
collect-built_from floats files id = collect-grown floats id files []
