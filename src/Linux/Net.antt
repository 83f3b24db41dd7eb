-- ===== src/Linux/Net.antt =====
-- internal/linux/net, less the rates: the sensors of network connections and of their access
-- points, and the worker that tracks the connections of NetworkManager. Counts and Rates, beside
-- this module, are about networkRates.go. Logging is left out.
pub mod Address
pub mod Nameservers
pub mod State
pub mod Wifi
pub mod Monitor
pub mod AccessPoints
pub mod Worker
pub mod Tracked
use go_hass_agent.Prelude.{ℕ, String, Option}
use go_hass_agent.Prelude.Int.{ℤ}

-- What the code does with a dbus.Variant: the one that a map gives for a missing key, and what
-- VariantToValue stores.
pub record Variants (V : Type 0) : Type 0 where
  pub missing : V
  pub to_text : V → Option String
  pub to_int : V → Option ℤ
  pub to_state : V → Option ℕ

-- The argument of `setState`, of the types that its switch knows.
pub data Setting (V : Type 0) : Type 0 where
  text : String → Setting V
  object_path : String → Setting V
  variant : V → Setting V
  uint32 : ℕ → Setting V
  unsupported : Setting V
