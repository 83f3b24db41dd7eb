-- ===== src/Linux/Cpu/Usage.antt =====
-- usage.go: /proc/stat, line by line.
use go_hass_agent.Prelude.{
  String, Bool, true, false, Option, none, some, List, [], ◌∷◌, ◌++◌, ◌==◌, if◌then◌else◌,
}
use go_hass_agent.Prelude.Dict.{Dict, insert, lookup}
use go_hass_agent.Prelude.Int.{ℤ}
use go_hass_agent.Prelude.Text.{◌+++◌, contains, words, lines, trim_prefix}
use go_hass_agent.Sensor.Classes.{DeviceClass, total_increasing}
use go_hass_agent.Linux.{LinuxSensor}
use go_hass_agent.Linux.Cpu.Freq.{CpuFreq, CpuFiles, new_cpu_freq_sensor}

-- What the code does with float64: strconv.ParseFloat, x / clktck, zero, sum and
-- user / total * 100. `atoi` is strconv.Atoi, 0 with an error.
pub record Floats (F : Type 0) : Type 0 where
  pub parse_float : String → Option F
  pub over_ticks : F → F
  pub zero_time : F
  pub add : F → F → F
  pub percent : F → F → F
  pub atoi : String → ℤ

-- `times`
unfoldable pub times : List String
times =
    "user_time" ∷ "nice_time" ∷ "system_time" ∷ "idle_time" ∷ "iowait_time" ∷ "irq_time"
    ∷ "softirq_time" ∷ "steal_time" ∷ "guest_time" ∷ "guest_nice_time" ∷ []

pub record CpuUsageSensor (F : Type 0) : Type 0 where
  pub cpu_id : String
  pub usage_attributes : Dict F
  pub value : Option F
  pub is_diagnostic : Bool

-- `Name` and `ID`
unfoldable pub usage_name : {F : Type 0} → CpuUsageSensor F → String
usage_name s =
    if s.cpu_id == "cpu"
    then "Total CPU Usage"
    else "Core " +++ trim_prefix s.cpu_id "cpu" +++ " CPU Usage"

unfoldable pub usage_id : {F : Type 0} → CpuUsageSensor F → String
usage_id s =
    if s.cpu_id == "cpu"
    then "total_cpu_usage"
    else "core_" +++ trim_prefix s.cpu_id "cpu" +++ "_cpu_usage"

-- Each time with its text, where there are as many texts as times.
unfoldable pub paired : List String → List String → Option (List (String × String))
paired [] [] = some []
paired [] (d ∷ details) = none
paired (n ∷ names) [] = none
paired (n ∷ names) (d ∷ details) = elim (paired names details) [
  | none ↦ none
  | some rest ↦ some ((n, d) ∷ rest)
]

-- A sensor, and panics of the code: a value that is not there is asserted to be a number.
pub data Made (A : Type 0) : Type 0 where
  made : A → Made A
  panic : Made A

pub data UsageItem (F : Type 0) : Type 0 where
  usage : CpuUsageSensor F → UsageItem F
  freq : CpuFreq → UsageItem F
  count : LinuxSensor ℤ → UsageItem F

module _ {F : Type 0} (floats : Floats F) where
  -- The loop of `generateValues`: the attributes and the total so far. A text that is no number is
  -- passed over.
  unfoldable pub add_times : List (String × String) → Dict F → F → Dict F × F
  add_times [] attrs sum = (attrs, sum)
  add_times ((name, text) ∷ rest) attrs sum = elim (floats.parse_float text) [
    | none ↦ add_times rest attrs sum
    | some v ↦
        add_times rest (insert name (floats.over_ticks v) attrs)
          (floats.add sum (floats.over_ticks v))
  ]

  unfoldable pub usage_of : CpuUsageSensor F → Dict F × F → Made (CpuUsageSensor F)
  usage_of s (attrs, sum) = elim (lookup "user_time" attrs) [
    | none ↦ panic
    | some user ↦ made (record s {
      usage_attributes = insert "total_time" sum attrs;
      value = some (floats.percent user sum);
    })
  ]

  unfoldable pub with_pairs :
      CpuUsageSensor F → Option (List (String × String)) → Made (CpuUsageSensor F)
  unfolding usage_of add_times
  with_pairs s none = made s
  with_pairs s (some pairs) = usage_of s (add_times pairs [] floats.zero_time)

  -- `generateValues`
  unfoldable pub generate_values : List String → CpuUsageSensor F → Made (CpuUsageSensor F)
  unfolding with_pairs paired times
  generate_values details s = with_pairs s (paired times details)

  -- `newUsageSensor`, for the first column and the others
  unfoldable pub new_usage_sensor : String → List String → Bool → Made (CpuUsageSensor F)
  unfolding generate_values
  new_usage_sensor id details diagnostic =
      generate_values details
        (record { cpu_id = id; usage_attributes = []; value = none; is_diagnostic = diagnostic })

  module _ (to_snake : String → String) (last_reset : String) (files : CpuFiles) where
    -- `newCountSensor`
    unfoldable pub new_count_sensor : String → String → String → LinuxSensor ℤ
    new_count_sensor name icon text = record {
      display_name = name;
      unique_id = to_snake name;
      last_reset = last_reset;
      value = some (floats.atoi text);
      icon_string = icon;
      units_string = "";
      data_source = "ProcFS";
      device_class_value = DeviceClass.none;
      state_class_value = total_increasing;
      is_binary = false;
      is_diagnostic = true;
    }

    counted : String → String → List String → Made (List (UsageItem F))
    unfolding new_count_sensor
    counted name icon [] = panic
    counted name icon (text ∷ rest) = made (count (new_count_sensor name icon text) ∷ [])

    with_usage : List (UsageItem F) → Made (CpuUsageSensor F) → Made (List (UsageItem F))
    with_usage more panic = panic
    with_usage more (made s) = made (usage s ∷ more)

    -- The sensors of a line that is not empty.
    unfoldable pub line_sensors : String → List String → Made (List (UsageItem F))
    unfolding with_usage new_usage_sensor counted new_cpu_freq_sensor
    line_sensors first rest =
        if first == "cpu"
        then with_usage [] (new_usage_sensor first rest false)
        else if contains first "cpu"
        then with_usage (freq (new_cpu_freq_sensor files first) ∷ [])
            (new_usage_sensor first rest true)
        else if first == "ctxt"
        then counted "Total CPU Context Switches" "mdi:counter" rest
        else if first == "processes"
        then counted "Total Processes Created" "mdi:application-cog" rest
        else if first == "procs_running"
        then counted "Processes Running" "mdi:application-cog" rest
        else if first == "procs_blocked"
        then counted "Processes Blocked" "mdi:application-cog" rest
        else made []

    -- How `getStats` ends: the sensors, and whether its error is nil; or a panic.
    unfoldable pub get_stats_from :
        List (List String) → List (UsageItem F) → Made (List (UsageItem F) × Bool)
    unfolding line_sensors
    get_stats_from [] sensors = made (sensors, true)
    get_stats_from ([] ∷ rows) sensors = made (sensors, false)
    get_stats_from ((first ∷ rest) ∷ rows) sensors = elim (line_sensors first rest) [
      | panic ↦ panic
      | made more ↦ get_stats_from rows (sensors ++ more)
    ]

    rows_of : List String → List (List String)
    rows_of [] = []
    rows_of (line ∷ rest) = words line ∷ rows_of rest

    -- `getStats`, for the text of the file, `none` where it cannot be opened
    unfoldable pub get_stats : Option String → Made (List (UsageItem F) × Bool)
    unfolding get_stats_from rows_of
    get_stats none = made ([], false)
    get_stats (some text) = get_stats_from (rows_of (lines text)) []
