-- ===== src/Dbusx.antt =====
-- pkg/linux/dbusx: values that come from D-Bus, and watches for signals. The connection of
-- godbus, with the variants that it stores into Go types, is a parameter; trace logging is left
-- out.
pub mod Values
pub mod Parsed
pub mod Watch
pub mod Delivery
