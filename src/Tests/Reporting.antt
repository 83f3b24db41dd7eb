-- ===== src/Tests/Reporting.antt =====
-- The theorems of the readings at concrete values.
use go_hass_agent.Prelude.{
  ℕ, ◌+◌, ◌≤◌, String, true, false, Option, none, some, List, [], ◌∷◌, ◌≡◌, refl, arith,
}
use go_hass_agent.Prelude.Dict.{lookup}
use go_hass_agent.Prelude.Text.{◌+++◌, contains, lines, cut, words, parse_uint, elem, parse_bool}
use go_hass_agent.Prelude.Int.{pos}
use go_hass_agent.Sensor.Classes.{binary_sensor}
use go_hass_agent.Hwmon.{Floats, ChipSensor, SensorFile, alarm, new_sensor, flag}
use go_hass_agent.Hwmon.Files.{sensor_file, update_info}
use go_hass_agent.Hwmon.Chips.{get_sensors, Chip, collect}
use go_hass_agent.Hwmon.Names.{new_hw_sensor}
use go_hass_agent.Hwmon.Gather.{files_of, built_from, collect-built_from}
use go_hass_agent.Hwmon.Alarms.{IsBoolean, alarms_are_binary, limit_alarms_merge}
use go_hass_agent.Linux.Mem.Ids.{number, mem_total, mem_free, mem_buffered, mem_cached}
use go_hass_agent.Linux.Mem.StatNames.{stat_names}
use go_hass_agent.Linux.Mem.Parse.{MemoryStats, get, get_mem_stats}
use go_hass_agent.Linux.Mem.Usage.{mem_used}
use go_hass_agent.Linux.Mem.Used.{mem_used-add}
use mathlib.Core.List.{Perm}
use mathlib.Core.List.Perm
use go_hass_agent.Linux.Cpu.Usage.{
  CpuUsageSensor, made, generate_values, paired, Floats as CpuFloats,
}
use go_hass_agent.Linux.Cpu.Totals.{other_times, sum_of, usage_is_share}
use go_hass_agent.Linux.Disk.Mounts.{Statfs, Mount, get_mounts}
use go_hass_agent.Linux.Disk.MountIds.{All, IsReported, mounts_are_allowed}

abbrev floats : Floats ℕ
floats = record { parse_float = λ t. some 7; scaled = λ x n. x }

abbrev limit_file : String → SensorFile
limit_file limit = record {
  name = "temp1_" +++ limit +++ "_alarm";
  sensor_id = "temp1_alarm";
  attribute = limit +++ "_alarm";
  contents = "1";
  sensor_type = alarm;
}

collect-built_from_example :
    lookup "temp1_alarm_Alarm" (collect floats (limit_file "max" ∷ []) [])
    ≡ built_from floats (files_of "temp1_alarm_Alarm" (limit_file "max" ∷ []))
collect-built_from_example = collect-built_from floats (limit_file "max" ∷ []) "temp1_alarm_Alarm"

limit_alarms_merge_example :
    (s : ChipSensor ℕ) × (get_sensors floats
        (some (("temp1_max_alarm", some "0") ∷ ("temp1_crit_alarm", some "1") ∷ []))
      ≡ some (s ∷ []))
    × (s.id ≡ "temp1_crit_alarm")
    × (s.value ≡ flag true)
unfolding parse_bool elem
limit_alarms_merge_example =
    limit_alarms_merge floats "temp1" "max" "crit" "0" "1" true
      (refl, (refl, (refl, (refl, (refl, tt))))) (refl, (refl, (refl, (refl, tt)))) refl

abbrev chip : Chip ℕ
chip = record {
  chip_name = "k10temp";
  chip_id = "hwmon0";
  device_model = "";
  path = "/hwmon0";
  sensors = [];
}

max_file : sensor_file ("temp1_max_alarm", some "1") ≡ some (limit_file "max")
unfolding sensor_file contains cut
max_file = refl

max_is_alarm : contains (limit_file "max").attribute "alarm" ≡ true
unfolding contains
max_is_alarm = refl

alarms_are_binary_example :
    IsBoolean (update_info floats (limit_file "max") (new_sensor (limit_file "max"))).value
    × ((new_hw_sensor chip
          (update_info floats (limit_file "max") (new_sensor (limit_file "max")))).sensor_type
        ≡ binary_sensor)
alarms_are_binary_example =
    alarms_are_binary floats chip ("temp1_max_alarm", some "1") (limit_file "max") max_file
      max_is_alarm

abbrev meminfo : String
meminfo = "MemTotal: 8 kB\nMemFree: 2 kB\nBuffers: 1 kB\nCached: 3 kB"

stats_read :
    get_mem_stats (some meminfo)
    ≡ some ((mem_total, 8000) ∷ (mem_free, 2000) ∷ (mem_buffered, 1000) ∷ (mem_cached, 3000) ∷ [])
unfolding get_mem_stats lines words parse_uint lookup stat_names number
stats_read = refl

abbrev stats : MemoryStats
stats = (mem_total, 8000) ∷ (mem_free, 2000) ∷ (mem_buffered, 1000) ∷ (mem_cached, 3000) ∷ []

other_le_total :
    get stats mem_free + get stats mem_buffered + get stats mem_cached ≤ get stats mem_total
unfolding get number
other_le_total = omega arith

-- Another order of the range.
abbrev shuffled : MemoryStats
shuffled = (mem_free, 2000) ∷ (mem_total, 8000) ∷ (mem_buffered, 1000) ∷ (mem_cached, 3000) ∷ []

shuffled-Perm : Perm shuffled stats
shuffled-Perm = Perm.swap (mem_total, 8000) (mem_free, 2000) _

mem_used-add_example :
    mem_used shuffled + (get stats mem_free + get stats mem_buffered + get stats mem_cached)
    ≡ get stats mem_total
mem_used-add_example = mem_used-add meminfo stats shuffled stats_read shuffled-Perm other_le_total

abbrev cpu_floats : CpuFloats ℕ
cpu_floats = record {
  parse_float = λ t. some (parse_uint t).0;
  over_ticks = λ x. x;
  zero_time = 0;
  add = λ x y. x + y;
  percent = λ x y. x;
  atoi = λ t. pos 0;
}

abbrev cpu : CpuUsageSensor ℕ
cpu = record { cpu_id = "cpu"; usage_attributes = []; value = none; is_diagnostic = false }

abbrev other_columns : List String
other_columns = "1" ∷ "1" ∷ "5" ∷ "0" ∷ "0" ∷ "0" ∷ "0" ∷ "0" ∷ "0" ∷ []

abbrev pairs : List (String × String)
pairs =
    ("nice_time", "1")
    ∷ ("system_time", "1")
    ∷ ("idle_time", "5")
    ∷ ("iowait_time", "0")
    ∷ ("irq_time", "0")
    ∷ ("softirq_time", "0")
    ∷ ("steal_time", "0")
    ∷ ("guest_time", "0")
    ∷ ("guest_nice_time", "0")
    ∷ []

paired_columns : paired other_times other_columns ≡ some pairs
unfolding paired
paired_columns = refl

usage_is_share_example :
    let sum = sum_of cpu_floats pairs (0 + 3) in
    (s : CpuUsageSensor ℕ) × (generate_values cpu_floats ("3" ∷ other_columns) cpu ≡ made s)
    × (s.value ≡ some 3)
    × (lookup "total_time" s.usage_attributes ≡ some sum)
unfolding parse_uint
usage_is_share_example = usage_is_share cpu_floats "3" other_columns pairs cpu 3 paired_columns refl

abbrev statfs : String → Option Statfs
statfs mountpoint = some (record {
  block_size = 4096;
  blocks = 100;
  blocks_free = 40;
  blocks_available = 35;
  inodes = 10;
  inodes_free = 5;
})

mounts_are_allowed_example :
    (ms : List Mount) × (get_mounts statfs
        (some "nodev proc\n ext4")
        (some "/dev/sda1 /home ext4 rw 0 0\ntmpfs /run/user tmpfs rw 0 0")
      ≡ some ms)
    × All
        (IsReported statfs
          (lines "nodev proc\n ext4")
          (lines "/dev/sda1 /home ext4 rw 0 0\ntmpfs /run/user tmpfs rw 0 0"))
        ms
mounts_are_allowed_example =
    mounts_are_allowed statfs "nodev proc\n ext4"
      "/dev/sda1 /home ext4 rw 0 0\ntmpfs /run/user tmpfs rw 0 0"
