-- ===== src/Linux/System.antt =====
-- internal/linux/system: the uptime, what the system is, and the D-Bus commands of MQTT (time.go,
-- info.go and dbusCommand.go). The sensors of chips are in Hwmon. Logging is left out.
pub mod Time
pub mod Info
pub mod DbusCommand
