-- ===== src/Linux/Cpu/Freq.antt =====
-- cpufreq.go
use go_hass_agent.Prelude.{String, Option, none, some, [], ◌∷◌}
use go_hass_agent.Prelude.Dict.{Dict}
use go_hass_agent.Prelude.Text.{◌+++◌, trim_prefix}

pub record CpuFreq : Type 0 where
  pub cpu : String
  pub governor : String
  pub driver : String
  pub freq : String

-- The trimmed text of a file below the directory of the processor, `none` where it cannot be read.
abbrev pub CpuFiles : Type 0
CpuFiles = String → String → Option String

unfoldable pub read_cpu_freq_prop : CpuFiles → String → String → String
read_cpu_freq_prop files id file = elim (files id file) [ none ↦ "unknown" | some prop ↦ prop ]

unfoldable pub get_cpu_freqs : CpuFiles → String → CpuFreq
unfolding read_cpu_freq_prop
get_cpu_freqs files id = record {
  cpu = id;
  governor = read_cpu_freq_prop files id "cpufreq/scaling_governor";
  driver = read_cpu_freq_prop files id "cpufreq/scaling_driver";
  freq = read_cpu_freq_prop files id "cpufreq/scaling_cur_freq";
}

-- `newCPUFreqSensor`: its value is the frequency, beside constants.
unfoldable pub new_cpu_freq_sensor : CpuFiles → String → CpuFreq
unfolding get_cpu_freqs
new_cpu_freq_sensor files id = get_cpu_freqs files id

unfoldable pub freq_name : CpuFreq → String
freq_name s = "Core " +++ trim_prefix s.cpu "cpu" +++ " Frequency"

unfoldable pub freq_id : CpuFreq → String
freq_id s = "cpufreq_core" +++ trim_prefix s.cpu "cpu" +++ "_frequency"

unfoldable pub freq_attributes : CpuFreq → Dict String
freq_attributes s =
    ("governor", s.governor)
    ∷ ("driver", s.driver)
    ∷ ("data_source", "SysFS")
    ∷ ("native_unit_of_measurement", "Hz")
    ∷ []
