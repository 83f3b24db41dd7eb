-- ===== src/Linux/Mem.antt =====
-- internal/linux/mem: the statistics of /proc/meminfo (memStats.go) and the sensors of memory and
-- swap (memUsage.go). Logging is left out.
pub mod Ids
pub mod StatNames
pub mod Parse
pub mod Usage
pub mod Used
pub mod Mapped
