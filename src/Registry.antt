-- ===== src/Registry.antt =====
-- internal/hass/sensor/registry: what the registry promises to the client, and the gob registry
-- that keeps it in memory and in a file.
pub mod Gob
pub mod Memory
pub mod File
use go_hass_agent.Prelude.{String, ◌≡◌, Bool, Option, if◌then◌else◌, ◌==◌}

pub data RegistryError : Type 0 where
  open_failed encode_failed : RegistryError

-- The interface `Registry` of client.go, over the states `R` of an implementation. An error says
-- that the change could not be written to disk; the change itself is made either way.
pub record RegistryApi (R : Type 0) : Type 0 where
  pub is_disabled : String → R → Bool
  pub is_registered : String → R → Bool
  pub set_disabled : String → Bool → R → Option RegistryError × R
  pub set_registered : String → Bool → R → Option RegistryError × R
  pub disabled_after_disable :
      (i j : String) (b : Bool) (r : R)
      → is_disabled j (set_disabled i b r).1 ≡ (if i == j then b else is_disabled j r)
  pub disabled_after_register :
      (i j : String) (b : Bool) (r : R) → is_disabled j (set_registered i b r).1 ≡ is_disabled j r
  pub registered_after_disable :
      (i j : String) (b : Bool) (r : R) → is_registered j (set_disabled i b r).1 ≡ is_registered j r
  pub registered_after_register :
      (i j : String) (b : Bool) (r : R)
      → is_registered j (set_registered i b r).1 ≡ (if i == j then b else is_registered j r)
