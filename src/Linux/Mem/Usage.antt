-- ===== src/Linux/Mem/Usage.antt =====
-- memUsage.go: the sensors of memory and swap. The snake case of strcase is a parameter, and so is
-- the percentage, a float64 rounded to a twentieth.
use go_hass_agent.Prelude.{
  ℕ, ◌+◌, ◌-◌, ◌^◌, ◌%◌, String, false, Option, none, some, List, [], ◌∷◌, ◌++◌, map, ltb, nat_eq,
  if◌then◌else◌, ◌||◌,
}
use go_hass_agent.Sensor.Classes.{DeviceClass, total, measurement, data_size}
use go_hass_agent.Linux.{LinuxSensor}
use go_hass_agent.Linux.Mem.Ids.{
  MemStatId, mem_stat_string, number, mem_total, mem_free, mem_buffered, mem_cached, mem_available,
  mem_corrupted, swap_total, swap_free, swap_cached,
}
use go_hass_agent.Linux.Mem.Parse.{MemoryStats, find, get, or_zero, get_mem_stats}

abbrev pub mem_sensors : List MemStatId
mem_sensors = mem_total ∷ mem_free ∷ mem_buffered ∷ mem_cached ∷ mem_available ∷ mem_corrupted ∷ []

abbrev pub swap_sensors : List MemStatId
swap_sensors = swap_total ∷ swap_free ∷ swap_cached ∷ []

-- The value of a sensor: bytes, or a percentage.
pub data MemValue (F : Type 0) : Type 0 where
  bytes : ℕ → MemValue F
  percent : F → MemValue F

-- What the code does with float64: the zero, and round(value / total * 100 / 0.05) * 0.05.
pub record Percents (F : Type 0) : Type 0 where
  pub zero_percent : F
  pub percent_of : ℕ → ℕ → F

-- `memOther`: what the loop over the map adds up
unfoldable pub mem_other : MemoryStats → ℕ → ℕ
mem_other [] sum = sum
mem_other ((key, v) ∷ rest) sum = mem_other rest (
    if nat_eq (number key) (number mem_free)
      || nat_eq (number key) (number mem_buffered)
      || nat_eq (number key) (number mem_cached)
    then (sum + v) % 2 ^ 64
    else sum)

-- `memUsed` of `newMemUsedPc`: a subtraction of uint64
unfoldable pub mem_used : MemoryStats → ℕ
unfolding mem_other get
mem_used stats = (get stats mem_total + 2 ^ 64 - mem_other stats 0) % 2 ^ 64

-- `swapUsed`
unfoldable pub swap_used : MemoryStats → ℕ
unfolding get
swap_used stats = (get stats swap_total + 2 ^ 64 - get stats swap_free) % 2 ^ 64

module _ {F : Type 0} (floats : Percents F) (to_snake : String → String) where
  -- `newMemSensor`
  unfoldable pub new_mem_sensor : MemStatId → Option ℕ → LinuxSensor (MemValue F)
  unfolding mem_stat_string
  new_mem_sensor id stat = record {
    display_name = mem_stat_string id;
    unique_id = to_snake (mem_stat_string id);
    last_reset = "";
    value = some (bytes (or_zero stat));
    icon_string = "mdi:memory";
    units_string = "B";
    data_source = "ProcFS";
    device_class_value = data_size;
    state_class_value = total;
    is_binary = false;
    is_diagnostic = false;
  }

  -- `newMemSensorPc`
  unfoldable pub new_mem_sensor_pc : String → ℕ → ℕ → LinuxSensor (MemValue F)
  new_mem_sensor_pc name value all = record {
    display_name = name;
    unique_id = to_snake name;
    last_reset = "";
    value =
        some (percent (if nat_eq all 0 then floats.zero_percent else floats.percent_of value all));
    icon_string = "mdi:memory";
    units_string = "%";
    data_source = "ProcFS";
    device_class_value = DeviceClass.none;
    state_class_value = measurement;
    is_binary = false;
    is_diagnostic = false;
  }

  unfoldable pub new_mem_used_pc : MemoryStats → LinuxSensor (MemValue F)
  unfolding new_mem_sensor_pc mem_used get
  new_mem_used_pc stats = new_mem_sensor_pc "Memory Usage" (mem_used stats) (get stats mem_total)

  unfoldable pub new_swap_used_pc : MemoryStats → LinuxSensor (MemValue F)
  unfolding new_mem_sensor_pc swap_used get
  new_swap_used_pc stats = new_mem_sensor_pc "Swap Usage" (swap_used stats) (get stats swap_total)

  unfoldable pub sensors_from : MemoryStats → List (LinuxSensor (MemValue F))
  unfolding new_mem_sensor new_mem_used_pc new_swap_used_pc get find
  sensors_from stats =
      map (λ id. new_mem_sensor id (find id stats)) mem_sensors
      ++ new_mem_used_pc stats
        ∷ (if ltb 0 (get stats swap_total)
            then map (λ id. new_mem_sensor id (find id stats)) swap_sensors
              ++ new_swap_used_pc stats ∷ []
            else [])

  -- `Sensors`, on the text of the file; `none` is its error
  unfoldable pub usage_sensors : Option String → Option (List (LinuxSensor (MemValue F)))
  unfolding sensors_from get_mem_stats
  usage_sensors file = elim (get_mem_stats file) [
    | none ↦ none
    | some stats ↦ some (sensors_from stats)
  ]
