-- ===== src/Scripts.antt =====
-- internal/scripts: the controller that schedules scripts, and the sensors that scripts report.
pub mod Controller
pub mod Schedule
pub mod Running
pub mod Sensor
pub mod Classes
