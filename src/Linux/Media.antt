-- ===== src/Linux/Media.antt =====
-- internal/linux/media: the controls of the camera and of the volume. MQTT entities are the values
-- that the library's constructors are given.
pub mod Camera
pub mod Recording
pub mod Volume
pub mod Mpris
