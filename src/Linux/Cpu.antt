-- ===== src/Linux/Cpu.antt =====
-- internal/linux/cpu: the usage of processors (usage.go), their frequencies (cpufreq.go) and the load
-- averages (loadAvgs.go), from the texts of files. float64 with its parser and operations is the
-- type F, and strcase.ToSnake a parameter. Logging is left out.
pub mod Freq
pub mod Load
pub mod Usage
pub mod Totals
