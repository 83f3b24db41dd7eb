-- ===== src/Registry/Memory.antt =====
-- What the registry answers after each change: the gob registry keeps the interface's promises.
use go_hass_agent.Prelude.{
  String, ◌≡◌, refl, ap, ◌∙◌, Bool, some, List, [], ◌∷◌, arith, eq_iff, ◌==◌, if◌then◌else◌,
}
use go_hass_agent.Prelude.Dict.{lookup, insert, lookup-insert}
use go_hass_agent.Registry.{RegistryApi}
use go_hass_agent.Registry.Gob.{
  Codec, GobRegistry, Outcome, written, no_file, broken, Metadata, write, metadata_of, is_disabled,
  is_registered, set_disabled, set_registered,
}

module _ (codec : Codec) where
  sensors-write_with :
      (os : List Outcome) (g : GobRegistry)
      → (write codec (record g { outcomes = os })).1.sensors ≡ g.sensors
  unfolding write
  sensors-write_with [] g = refl
  sensors-write_with (written ∷ os) g = refl
  sensors-write_with (no_file ∷ os) g = refl
  sensors-write_with (broken bytes ∷ os) g = refl

  -- A write never changes the map in memory, whether it succeeds or not.
  pub sensors-write : (g : GobRegistry) → (write codec g).1.sensors ≡ g.sensors
  sensors-write g = sensors-write_with g.outcomes g

  lookup-write :
      (i j : String) (m : Metadata) (g : GobRegistry)
      → lookup j (write codec (record g { sensors = insert i m g.sensors })).1.sensors
        ≡ (if i == j then some m else lookup j g.sensors)
  lookup-write i j m g = ap (lookup j) (sensors-write _) ∙ lookup-insert i j m g.sensors

  module _ (i j : String) (b : Bool) (g : GobRegistry) where
    pub disabled_after_disable :
        is_disabled j (set_disabled codec i b g).1 ≡ (if i == j then b else is_disabled j g)
    unfolding is_disabled set_disabled
    disabled_after_disable = ground (
      arith,
      eq_iff i j,
      lookup-write i j (record (metadata_of (lookup i g.sensors)) { disabled = b }) g,
    )

    pub disabled_after_register : is_disabled j (set_registered codec i b g).1 ≡ is_disabled j g
    unfolding is_disabled set_registered
    disabled_after_register = ground (
      arith,
      eq_iff i j,
      lookup-write i j (record (metadata_of (lookup i g.sensors)) { registered = b }) g,
    )

    pub registered_after_disable : is_registered j (set_disabled codec i b g).1 ≡ is_registered j g
    unfolding is_registered set_disabled
    registered_after_disable = ground (
      arith,
      eq_iff i j,
      lookup-write i j (record (metadata_of (lookup i g.sensors)) { disabled = b }) g,
    )

    pub registered_after_register :
        is_registered j (set_registered codec i b g).1 ≡ (if i == j then b else is_registered j g)
    unfolding is_registered set_registered
    registered_after_register = ground (
      arith,
      eq_iff i j,
      lookup-write i j (record (metadata_of (lookup i g.sensors)) { registered = b }) g,
    )

  -- The gob registry as the client's interface.
  abbrev pub gob_api : RegistryApi GobRegistry
  gob_api = record {
    is_disabled = is_disabled;
    is_registered = is_registered;
    set_disabled = set_disabled codec;
    set_registered = set_registered codec;
    disabled_after_disable = disabled_after_disable;
    disabled_after_register = disabled_after_register;
    registered_after_disable = registered_after_disable;
    registered_after_register = registered_after_register;
  }
