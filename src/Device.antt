-- ===== src/Device.antt =====
-- internal/device and pkg/linux/whichdistro: what the device and its distribution are. The hardware
-- library, uname and strconv.Unquote are parameters.
pub mod Distro
pub mod Details
pub mod Release
